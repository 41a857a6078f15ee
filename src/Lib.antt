-- ===== src/Lib.antt =====
-- loupfeed agents: a verification library for the core of the review platform.
--
-- The program runs coding and review agents over GitHub pull requests. A review run parses the diff
-- of the pull request, records findings by tools into the metadata of a thread of the agent server,
-- publishes a selection of them as review comments, and brings them in line with what happens to
-- those comments; a middleware ends runs whose sandbox is lost, and failing checks of the agent's
-- own pull requests start fix runs. The library models that logic; HTTP, the agent server and the
-- models are parameters.
--
-- The files, and the code that they are about:
--   Common, Json          shared helpers: native numbers, Python's texts and lists, and the values of
--                         a JSON document with the reads and writes of a Python dict (no floats).
--   Diff                  agent/reviewer_diff.py: Lines (str.splitlines), Header (the two regular
--                         expressions), Parse (parse_unified_diff), Anchor (compute_diff_line_set,
--                         is_range_in_diff, extract_diff_hunk); OnePass, Complete, Cover, Extract and
--                         Hunk prove.
--   Findings              agent/reviewer_findings.py: Titles (clip_suggestion,
--                         normalize_finding_title), Coerce (_coerce_findings_list), Client (the SDK's
--                         threads.get and threads.update), Mutate (get_thread_metadata,
--                         list_findings, replace_findings, mutate_findings), Update (append_finding,
--                         update_finding_fields, update_finding_surface,
--                         append_finding_interaction, _coerce_surface, _sync_legacy_surface_fields),
--                         Create (new_finding), Thread (resolve_review_head_sha, get_finding and the
--                         readers of the metadata), Rank and Select (filter_findings_for_publish);
--                         Stored, Edits, Found, Operations, Again, Legacy, Surfaced and Threads prove.
--   Tools                 agent/tools/add_finding.py: Ranges (the checks), AddFinding (the tool over
--                         Diff and Findings); Recorded and Unwritten prove.
--   Reconcile             agent/reviewer_reconcile.py: Marker (parse_review_comment_marker of
--                         agent/reviewer_publish.py), Replies, Match (_index_review_threads,
--                         _find_review_threads_for_finding), Sync (_sync_publication_identity,
--                         _sync_thread_status), Latest (_sync_latest_human_reply), Run
--                         (reconcile_findings_with_review_threads); Kept, Stored and Status prove.
--   Groups                agent/reviewer_groups.py: Normalize (_normalize_groups), Prompt
--                         (_build_prompt), Store (generate_diff_groups, maybe_generate_diff_groups);
--                         Partition and Coverage prove.
--   Breaker               agent/middleware/sandbox_circuit_breaker.py: Message, Streak (the scan and
--                         before_model), Target (_get_slack_target and the like), Hooks
--                         (aafter_agent); Runs and Notify prove.
--   Autofix               agent/ci_autofix.py and agent/utils/github_ci.py: Prompts, Keys (the state
--                         in the metadata), Ports (what is read from outside, and the writes),
--                         Handler (handle_ci_failure, handle_review_feedback), Sweep
--                         (sweep_open_prs, _flag_merge_conflict); Allowed, Whole, Attempts, Runs,
--                         Handled and Counted prove.
--   Queue                 agent/utils/thread_ops.py and agent/middleware/check_message_queue.py: Store
--                         (queue_message_for_thread), Blocks (_build_blocks_from_payload and the loop
--                         over the messages), Check (check_message_queue_before_model); Fifo is the
--                         abstract queue with its refinement, Delivery and Races prove.
--   Resolve               agent/tools/resolve_finding_thread.py, agent/tools/update_finding.py and
--                         agent/tools/reply_to_finding_thread.py: Notes (the note, the ids,
--                         render_resolution_comment), GitHub (the requests), Loop (the loop over the
--                         threads), Tool (resolve_finding_thread), Update (update_finding), Reply
--                         (reply_to_finding_thread); Settled, Stored, Updates, Noted, Again and Replied
--                         prove.
--   Publish               agent/tools/publish_review.py, with the bodies of comments and the check run of
--                         agent/reviewer_publish.py and agent/utils/github_checks.py: Render
--                         (render_inline_comment_body, render_review_body), Select (the findings that
--                         are posted), Stamp (_record_review_publication), Settle
--                         (settle_review_check_run, the comment of a running review), Post
--                         (post_pull_request_review), Drop (_filter_against_pr_diff), Threads
--                         (_store_thread_ids_on_findings), Sweep
--                         (_resolve_threads_for_resolved_findings), Host (the requests, the arguments
--                         and the results), Flow (_publish_review_async) and Tool (publish_review);
--                         Marked, Stamped, Published, Sourced, Once, Recorded, Keeps, Before, Finish,
--                         Advanced, Whole, Anchored, Ends and Unread prove.
--   Schedules             agent/dashboard/schedules.py: Cron (normalize_cron_schedule), Records (the stored
--                         record, _user_owns_schedule, delete_agent_schedule), Update
--                         (update_agent_schedule); Normal, Kept and Live prove.
-- The module Tests of each part runs its definitions and applies its theorems at concrete inputs.
--
-- How state is modelled. A call of the store takes a state and returns a result with the state
-- behind it; a result is a value, a missing thread or another exception, and what was written
-- before an exception stays written. The client of the agent server is a record of two functions
-- over an abstract state; what its documentation promises, that a write merges its keys into the
-- metadata of one thread, is the record IsMerging, which a client over a list of threads
-- satisfies. A write that raises has a state behind it, as the request may have been carried out;
-- of that IsMerging says that it was merged whole or not at all. Metadata and findings are dicts
-- of JSON values, since they come from a store that checks nothing. The handler of failing checks
-- reads from a record of ports and returns a status with the list of its requests; the failure of
-- an update is swallowed, so a port says whether it takes effect, and the histories of failures on
-- one thread, one after another, are the relation Reached. The tools that change a finding make
-- their requests of GitHub on the same state as the store, in the order of the code; what is
-- assumed of them is that the outcome data set is apart from the findings. The message queue reads
-- and writes the item of its thread in a store of which IsReliable says that its calls succeed. A
-- publication makes its requests on the state of the store too; HostApart says that they leave the
-- thread of the review alone. A finding's lines are numbers or null, the ids that GitHub gives are
-- numbers, and the error in an answer is a text, as post_pull_request_review writes it; its answer
-- is never none, so that the guard against that has no counterpart.
--
-- Bounds. The nested loops of the diff parser run on fuel, as many steps as the text has lines, which
-- is enough since each turn takes a line; every other loop is structural. Numbers are unbounded, as
-- Python's are. Digits, the ids of sandboxes and lower-casing are those of ASCII.
--
-- What is not modelled: the requests themselves, logging, clocks and random ids, which are arguments
-- where a result depends on them; the exceptions that Python raises on values of types that the
-- program never stores, as a list for a severity; a raise of runs.create; and the components that
-- the manifest of the library lists as such, of which the launch of scheduled runs is the next.
-- Of the bodies of reviews the section of findings outside the diff is left out, which no caller
-- passes any findings for.
pub mod Common
pub mod Json
pub mod Diff
pub mod Breaker
pub mod Groups
pub mod Findings
pub mod Tools
pub mod Reconcile
pub mod Autofix
pub mod Queue
pub mod Resolve
pub mod Schedules
pub mod Publish
