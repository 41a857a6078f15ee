-- ===== src/Publish/Flow.antt =====
-- `_publish_review_async` of agent/tools/publish_review.py: a publication from the findings to the
-- settled check run.
use loupfeed_agents.Common.{
  ℕ, ◌-◌, String, Bool, true, false, ◌&&◌, not, Option, none, some, List, [], ◌∷◌, length, null,
  if◌then◌else◌, ◌==◌, nonempty, is_some, ◌⧺◌, show_ℕ,
}
use loupfeed_agents.Json.{Value, ℤ, num_of, Fields, get, text_or}
use loupfeed_agents.Autofix.Prompts.{show_ℤ}
use loupfeed_agents.Findings.Client.{Client}
use loupfeed_agents.Findings.Mutate.{Result, ◌>>=◌, pure, get_thread_metadata, list_findings}
use loupfeed_agents.Findings.Thread.{
  set_reviewer_thread_metadata, get_thread_last_reviewed_sha, get_thread_slack_ref, text_of,
  head_or,
}
use loupfeed_agents.Reconcile.Run.{reconcile_findings_with_review_threads}
use loupfeed_agents.Publish.Render.{render_review_body, issue_word}
use loupfeed_agents.Publish.Stamp.{record_review_publication}
use loupfeed_agents.Publish.Settle.{
  no_args, review_check_conclusion, clear_review_started_comment, settle_review_check_run,
}
use loupfeed_agents.Publish.Drop.{filter_against_pr_diff}
use loupfeed_agents.Publish.Threads.{missing_comment_ids, store_thread_ids_on_findings}
use loupfeed_agents.Publish.Sweep.{resolve_threads_for_resolved_findings}
use loupfeed_agents.Publish.Host.{
  Host, Run, Outcome, refused, skipped, reviewed, Attempt, failed, taken, findings_in, comments_in,
  open_count, error_of, is_unresolved, judged, judged_again,
}

module _ {S : Type 0} (c : Client S) (tid : String) (host : Host S)
    (json_loads : String → Option Value) where
  -- `_backfill_findings_from_pr_threads`, behind the findings
  unfoldable pub backfilled : List Fields → S → Result (List Fields) × S
  unfolding reconcile_findings_with_review_threads
  backfilled findings = if null findings then pure findings else (do
    threads ← host.github.fetch_pr_review_threads
    if null threads
        then pure findings
        else reconcile_findings_with_review_threads c tid json_loads threads)

  unfoldable pub backfill_findings : S → Result (List Fields) × S
  unfolding list_findings backfilled
  backfill_findings = do findings ← list_findings c tid; backfilled findings

  -- `_open_swe_already_reviewed`, where the run is no re-review
  unfoldable pub reviewed_before : S → Result Bool × S
  unfolding get_thread_metadata get_thread_last_reviewed_sha
  reviewed_before = do
    metadata ← get_thread_metadata c tid
    if is_some (get_thread_last_reviewed_sha metadata) then pure true else (do
      exists ← host.open_swe_review_exists
      pure (elim exists [ none ↦ false | some b ↦ b ]))

  unfoldable pub already_reviewed : Bool → S → Result Bool × S
  unfolding reviewed_before
  already_reviewed is_re_review = if is_re_review then pure true else reviewed_before

  -- whether the publication is skipped: only where there is nothing to post
  unfoldable pub is_skipped : Bool → List (Fields × Fields) → S → Result Bool × S
  unfolding already_reviewed
  is_skipped is_re_review [] = already_reviewed is_re_review
  is_skipped is_re_review (p ∷ ps) = pure false

  -- the end of a publication: the head that was reviewed, the comment and the check run
  unfoldable pub finish : String → ℕ → S → Result (Unit {0}) × S
  unfolding set_reviewer_thread_metadata clear_review_started_comment review_check_conclusion
      settle_review_check_run
  finish head n = do
    advanced ← set_reviewer_thread_metadata c tid (record no_args { last_reviewed_sha = some head })
    cleared ← clear_review_started_comment c tid host.requests
    settle_review_check_run c tid host.requests (review_check_conclusion n)

  -- the body and the comments of a set of findings
  unfoldable pub post : Run → String → String → List (Fields × Fields) → S → Result Fields × S
  unfolding render_review_body
  post r head trace_url pairs =
      host.post_pull_request_review head
        (render_review_body r.pr_number (length pairs) trace_url r.ui_url) (comments_in pairs)

  -- behind the filter: the second request, where a part of the findings can be anchored
  unfoldable pub retry :
      Run → String → String → Fields → List (Fields × Fields) × List String → S → Result Attempt × S
  unfolding post judged_again error_of
  retry r head trace_url response (valid, dropped) =
      if not (null dropped) && not (null valid)
      then (do again ← post r head trace_url valid; pure (judged_again again valid dropped))
      else pure (failed (error_of response) (some dropped))

  -- behind the first answer
  unfoldable pub answered :
      Run → String → String → List (Fields × Fields) → Fields → S → Result Attempt × S
  unfolding is_unresolved filter_against_pr_diff retry judged
  answered r head trace_url pairs response =
      if is_unresolved response
      then (do
        split ← filter_against_pr_diff host.fetch_pr_diff r.diff_line_set pairs
        retry r head trace_url response split)
      else pure (judged response pairs [])

  unfoldable pub attempt : Run → String → String → List (Fields × Fields) → S → Result Attempt × S
  unfolding post answered
  attempt r head trace_url pairs = do
    response ← post r head trace_url pairs
    answered r head trace_url pairs response

  -- the run in the metadata, where the configuration has none
  unfoldable pub current_run : String → S → Result String × S
  unfolding get_thread_metadata text_of get head_or
  current_run run = if nonempty run then pure run else (do
    metadata ← get_thread_metadata c tid
    pure (head_or "" (text_of (get "current_reviewer_run_id" metadata))))

  -- the findings again, where a comment that was posted has no id yet
  unfoldable pub recover : Bool → S → Result (Unit {0}) × S
  unfolding backfill_findings
  recover missing = if missing then (do found ← backfill_findings; pure tt) else pure tt

  -- what is recorded of a review with comments
  unfoldable pub record_review : Run → ℤ → List (Fields × Fields) → S → Result (Unit {0}) × S
  unfolding current_run record_review_publication list_findings missing_comment_ids recover
      store_thread_ids_on_findings
  record_review r review pairs = do
    records ← host.fetch_review_comments review
    run ← current_run r.run
    recorded ← record_review_publication c tid json_loads review (findings_in pairs) records run
    findings ← list_findings c tid
    recovered ← recover (missing_comment_ids findings (findings_in pairs))
    store_thread_ids_on_findings c tid host.github.fetch_pr_review_threads

  unfoldable pub record_posted : Run → Option ℤ → List (Fields × Fields) → S → Result (Unit {0}) × S
  unfolding record_review
  record_posted r none pairs = pure tt
  record_posted r (some review) [] = pure tt
  record_posted r (some review) (p ∷ ps) = record_review r review (p ∷ ps)

  review_url : String → Option ℤ → String
  unfolding show_ℤ
  review_url url none = url
  review_url url (some z) = url ⧺ ("#pullrequestreview-" ⧺ show_ℤ z)

  -- the text that Slack is sent
  unfoldable pub slack_text : Run → Option ℤ → ℕ → String
  unfolding issue_word show_ℕ show_ℤ review_url
  slack_text r review n =
      let headline =
        if n == 0
        then "*loupfeed agents Review*: No issues found."
        else "*loupfeed agents Review* found "
          ⧺ (show_ℕ n ⧺ (" potential " ⧺ (issue_word n ⧺ "."))) in
      let url =
        "https://github.com/" ⧺ (r.owner ⧺ ("/" ⧺ (r.repo ⧺ ("/pull/" ⧺ show_ℤ r.pr_number)))) in
      headline ⧺ (" <" ⧺ (review_url url review ⧺ "|View review>"))

  slack_to : String → Option Fields → S → Result (Unit {0}) × S
  unfolding text_or get
  slack_to text none = pure tt
  slack_to text (some ref) =
      host.post_slack_thread_reply (text_or (get "channel_id" ref) "")
        (text_or (get "thread_ts" ref) "") text

  -- `_maybe_post_slack_completion_reply`
  unfoldable pub slack_reply : Run → Option ℤ → ℕ → S → Result (Unit {0}) × S
  unfolding get_thread_metadata get_thread_slack_ref slack_text slack_to
  slack_reply r review n = do
    metadata ← get_thread_metadata c tid
    slack_to (slack_text r review n) (get_thread_slack_ref metadata)

  unfoldable pub first_slack_reply : Run → Option ℤ → ℕ → S → Result (Unit {0}) × S
  unfolding slack_reply
  first_slack_reply r review n = if r.is_re_review then pure tt else slack_reply r review n

  -- behind the attempt
  unfoldable pub publish_attempt : Run → String → ℕ → Attempt → S → Result Outcome × S
  unfolding record_posted num_of get list_findings resolve_threads_for_resolved_findings
      first_slack_reply finish
  publish_attempt r head opened (failed error dropped) = pure (refused error dropped)
  publish_attempt r head opened (taken response pairs dropped) = do
    recorded ← record_posted r (num_of (get "id" response)) pairs
    findings ← list_findings c tid
    resolved ← resolve_threads_for_resolved_findings c tid host.github findings
    told ← first_slack_reply r (num_of (get "id" response)) (length pairs)
    finished ← finish head (length pairs)
    pure (
        reviewed (num_of (get "id" response)) (length pairs) (opened - length pairs) resolved
          dropped)

  -- an empty review where there was one before
  unfoldable pub publish_skipped : String → ℕ → List Fields → S → Result Outcome × S
  unfolding resolve_threads_for_resolved_findings finish
  publish_skipped head opened findings = do
    resolved ← resolve_threads_for_resolved_findings c tid host.github findings
    finished ← finish head 0
    pure (skipped opened resolved)

  -- behind the findings and those that are selected
  unfoldable pub publish_pairs :
      Run → String → String → List Fields → List (Fields × Fields) → S → Result Outcome × S
  unfolding is_skipped open_count publish_skipped attempt publish_attempt
  publish_pairs r head trace_url findings pairs = do
    skip ← is_skipped r.is_re_review pairs
    if skip then publish_skipped head (open_count r.is_re_review head findings) findings else (do
      attempted ← attempt r head trace_url pairs
      publish_attempt r head (open_count r.is_re_review head findings) attempted)
