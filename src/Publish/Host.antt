-- ===== src/Publish/Host.antt =====
-- The calls, the arguments and the results of a publication, and how an answer of GitHub to a review is judged:
-- agent/tools/publish_review.py.
use loupfeed_agents.Common.{
  ℕ, String, Bool, Option, none, some, List, length, map, if◌then◌else◌, ◌⧺◌,
}
use loupfeed_agents.Json.{ℤ, Fields, get, has, text_or, eq_text}
use loupfeed_agents.Findings.Mutate.{Result}
use loupfeed_agents.Diff.Anchor.{LineSet}
use loupfeed_agents.Resolve.GitHub.{GitHub}
use loupfeed_agents.Publish.Select.{keep, is_open, unpublished_findings}
use loupfeed_agents.Publish.Settle.{Requests}

-- The other calls of a publication, for the pull request of the run: GitHub's reviews and diff,
-- the trace link, and Slack. `post_pull_request_review` takes the head, the body and the comments.
pub record Host (S : Type 0) : Type 0 where
  pub github : GitHub S
  pub requests : Requests S
  pub post_pull_request_review : String → String → List Fields → S → Result Fields × S
  pub fetch_review_comments : ℤ → S → Result (List Fields) × S
  pub fetch_pr_diff : S → Result (Option String) × S
  pub open_swe_review_exists : S → Result (Option Bool) × S
  pub resolve_review_trace_url : S → Result String × S
  pub post_slack_thread_reply : String → String → String → S → Result (Unit {0}) × S

-- The arguments, with the head that `resolve_review_head_sha` gives, the link to the dashboard, and the
-- line set of the configuration; `run` is empty where there is none.
pub record Run : Type 0 where
  pub owner : String
  pub repo : String
  pub pr_number : ℤ
  pub threshold : String
  pub cap : ℕ
  pub is_re_review : Bool
  pub run : String
  pub ui_url : String
  pub diff_line_set : Option LineSet

-- The dict that is returned: an error, with the ids of the findings without an anchor where they
-- are known, an empty review that was skipped, or the review.
pub data Outcome : Type 0 where
  refused : String → Option (List String) → Outcome
  skipped : ℕ → ℕ → Outcome
  reviewed : Option ℤ → ℕ → ℕ → ℕ → List String → Outcome

-- The review as GitHub took it, with the findings in it and those that were dropped, or an error.
pub data Attempt : Type 0 where
  failed : String → Option (List String) → Attempt
  taken : Fields → List (Fields × Fields) → List String → Attempt

-- the findings, or their payloads, of those that are posted
abbrev pub findings_in : List (Fields × Fields) → List Fields
findings_in ps = map (λ p. p.0) ps

abbrev pub comments_in : List (Fields × Fields) → List Fields
comments_in ps = map (λ p. p.1) ps

-- `len(open_unpublished)`
unfoldable pub open_count : Bool → String → List Fields → ℕ
unfolding keep is_open unpublished_findings
open_count is_re_review head findings =
    length (keep is_open (unpublished_findings is_re_review head findings))

-- an `_error` is a text
unfoldable pub error_of : Fields → String
unfolding text_or get
error_of response = "Failed to POST PR review: " ⧺ text_or (get "_error" response) ""

unfoldable pub is_unresolved : Fields → Bool
unfolding eq_text get
is_unresolved response = eq_text (get "_error_kind" response) "unresolved_anchor"

-- the last look at an answer
unfoldable pub judged : Fields → List (Fields × Fields) → List String → Attempt
unfolding has error_of
judged response pairs dropped =
    if has "_error" response then failed (error_of response) none else taken response pairs dropped

-- the answer to the second request
unfoldable pub judged_again : Fields → List (Fields × Fields) → List String → Attempt
unfolding has error_of
judged_again response pairs dropped =
    if has "_error" response
    then failed (error_of response) (some dropped)
    else taken response pairs dropped
