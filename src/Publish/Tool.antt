-- ===== src/Publish/Tool.antt =====
-- `publish_review` of agent/tools/publish_review.py: the checks of the arguments and of the
-- configuration, the dry run, and the publication.
use loupfeed_agents.Common.{
  ℕ, ◌-◌, String, Bool, true, false, ◌||◌, not, Option, none, some, [], ◌∷◌, length, if◌then◌else◌,
  nonempty, mem_str, ◌⧺◌,
}
use loupfeed_agents.Json.{
  Value, ℤ, pos, num_of, as_dict, str, Fields, field, end, get, truthy, text_or, is_int, has_text,
  bool,
}
use loupfeed_agents.Findings.Client.{Client}
use loupfeed_agents.Findings.Mutate.{Result, ok, thread_missing, raised, ◌>>=◌, pure, list_findings}
use loupfeed_agents.Findings.Select.{filter_findings_for_publish}
use loupfeed_agents.Findings.Thread.{
  resolve_review_head_sha, set_reviewer_thread_metadata, text_of, head_or,
}
use loupfeed_agents.Diff.Anchor.{LineSet}
use loupfeed_agents.Publish.Select.{keep, is_open, is_in_diff, selected, with_payload}
use loupfeed_agents.Publish.Settle.{no_args}
use loupfeed_agents.Publish.Host.{Host, Run, Outcome}
use loupfeed_agents.Publish.Flow.{backfill_findings, publish_pairs}

-- no comment and no review of an earlier publication
unfoldable pub lacks_identity : Fields → Bool
unfolding is_int get
lacks_identity f =
    not (is_int (get "github_review_comment_id" f) || is_int (get "github_review_id" f))

-- the dict of a dry run: `surfaced_count` and `hidden_count`
pub record DryRun : Type 0 where
  pub surfaced_count : ℕ
  pub hidden_count : ℕ

module _ {S : Type 0} (c : Client S) (tid : String) (json_dumps : Value → String) where
  -- `_publish_review_eval_dry_run_async`
  unfoldable pub publish_review_eval_dry_run : String → String → ℕ → S → Result DryRun × S
  unfolding list_findings keep lacks_identity is_open is_in_diff filter_findings_for_publish
      with_payload set_reviewer_thread_metadata
  publish_review_eval_dry_run head threshold cap = do
    findings ← list_findings c tid
    let unpublished = keep lacks_identity findings
    let opened = length (keep is_open unpublished)
    let surfaced = length (
        with_payload json_dumps
          (filter_findings_for_publish (keep is_in_diff unpublished) threshold cap))
    advanced ← set_reviewer_thread_metadata c tid (record no_args { last_reviewed_sha = some head })
    pure (record { surfaced_count = surfaced; hidden_count = opened - surfaced })

-- What a call returns: an error of the checks or of the token, a thread of the store that is
-- missing, a dry run, or what came of the publication.
pub data Publication : Type 0 where
  rejected : String → Publication
  unauthorized : String → Publication
  gone : String → Publication
  simulated : DryRun → Publication
  published : Outcome → Publication

lacks_repo : Option Fields → Bool
unfolding truthy get
lacks_repo none = true
lacks_repo (some repo) = not (truthy (get "owner" repo)) || not (truthy (get "name" repo))

-- the first check that fails
unfoldable pub publish_error : String → Fields → Option String
unfolding get as_dict lacks_repo is_int has_text
publish_error threshold configurable =
    if not (mem_str threshold ("low" ∷ "medium" ∷ "high" ∷ "critical" ∷ []))
    then some ("Invalid severity_threshold: " ⧺ threshold)
    else if lacks_repo (as_dict (get "repo" configurable))
    then some "Missing repo info in run config"
    else if not (is_int (get "pr_number" configurable))
    then some "Missing pr_number in run config"
    else if not (has_text (get "head_sha" configurable))
    then some "Missing head_sha in run config"
    else none

-- `v is True`
is_true : Value → Bool
is_true (bool b) = b
is_true v = false

-- `_is_reviewer_eval_mode`
unfoldable pub is_reviewer_eval_mode : Fields → Bool
unfolding get is_true
is_reviewer_eval_mode configurable =
    is_true (get "reviewer_eval" configurable) || is_true (get "eval" configurable)

-- `_current_run_id`; empty where there is none
unfoldable pub current_run_id : Fields → Fields → String
unfolding text_of get
current_run_id config configurable =
    let own = head_or "" (text_of (get "run_id" configurable)) in
    head_or own (text_of (get "run_id" config))

repo_text : String → Fields → String
unfolding as_dict get text_or
repo_text k configurable = elim (as_dict (get "repo" configurable)) [
  | none ↦ ""
  | some repo ↦ text_or (get k repo) ""
]

int_of : Value → ℤ
unfolding num_of
int_of v = elim (num_of v) [ none ↦ pos 0 | some z ↦ z ]

-- The arguments of the publication. The owner and the name are texts; `links` is
-- `dashboard_review_url`, and `lines` the line set of the configuration.
unfoldable pub run_of :
    (String → String → ℤ → String) → Option LineSet → Fields → Fields → String → ℕ → Run
unfolding repo_text int_of get truthy current_run_id
run_of links lines config configurable threshold cap =
    let owner = repo_text "owner" configurable in
    let repo = repo_text "name" configurable in
    let pr_number = int_of (get "pr_number" configurable) in
    record {
      owner = owner;
      repo = repo;
      pr_number = pr_number;
      threshold = threshold;
      cap = cap;
      is_re_review = truthy (get "re_review" configurable);
      run = current_run_id config configurable;
      ui_url = links owner repo pr_number;
      diff_line_set = lines;
    }

module _ {S : Type 0} where
  -- `except ReviewerThreadMissingError`
  dry_result : Result DryRun × S → Result Publication × S
  dry_result (ok d, s) = (ok (simulated d), s)
  dry_result (thread_missing t, s) = (ok (gone t), s)
  dry_result (raised, s) = (raised, s)

  -- `except GitHubAuthError`: `auth` is that error, where it is what was raised, and `invalidate`
  -- drops the token
  caught : (S → Option String) → (S → S) → Result Outcome × S → Result Publication × S
  caught auth invalidate (ok o, s) = (ok (published o), s)
  caught auth invalidate (thread_missing t, s) = (ok (gone t), s)
  caught auth invalidate (raised, s) = elim (auth s) [
    | none ↦ (raised, s)
    | some e ↦ (ok (unauthorized e), invalidate s)
  ]

module _ {S : Type 0} (c : Client S) (tid : String) (host : Host S)
    (json_loads : String → Option Value) (json_dumps : Value → String) where
  -- `_publish_review_async`
  unfoldable pub publish_review_async : Run → String → S → Result Outcome × S
  unfolding resolve_review_head_sha backfill_findings selected with_payload publish_pairs
  publish_review_async r config_head = do
    head ← resolve_review_head_sha c tid (field "head_sha" (str config_head) end)
    trace_url ← host.resolve_review_trace_url
    findings ← backfill_findings c tid host json_loads
    publish_pairs c tid host json_loads r head trace_url findings
        (with_payload json_dumps (selected r.is_re_review head r.threshold r.cap findings))

  -- behind the checks; an empty token is none
  unfoldable pub publish_with_token :
      (S → Option String) → (S → S) → String → Run → String → S → Result Publication × S
  unfolding publish_review_async caught
  publish_with_token auth invalidate token r head s =
      if not (nonempty token)
      then (ok (rejected "No GitHub token available"), s)
      else caught auth invalidate (publish_review_async r head s)

  unfoldable pub publish_checked :
      (S → Option String)
      → (S → S)
      → String
      → Fields
      → Run
      → String
      → Option String
      → S
      → Result Publication × S
  unfolding is_reviewer_eval_mode publish_review_eval_dry_run dry_result publish_with_token
  publish_checked auth invalidate token configurable r head (some error) s =
      (ok (rejected error), s)
  publish_checked auth invalidate token configurable r head none s =
      if is_reviewer_eval_mode configurable
      then dry_result (publish_review_eval_dry_run c tid json_dumps head r.threshold r.cap s)
      else publish_with_token auth invalidate token r head s

  -- `publish_review`
  unfoldable pub publish_review :
      (S → Option String)
      → (S → S)
      → (String → String → ℤ → String)
      → Option LineSet
      → String
      → Fields
      → Fields
      → String
      → ℕ
      → S
      → Result Publication × S
  unfolding publish_error publish_checked run_of text_or get
  publish_review auth invalidate links lines token config configurable threshold cap =
      publish_checked auth invalidate token configurable
        (run_of links lines config configurable threshold cap)
        (text_or (get "head_sha" configurable) "") (publish_error threshold configurable)
