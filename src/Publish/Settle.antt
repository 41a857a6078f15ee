-- ===== src/Publish/Settle.antt =====
-- The comment and the check run of a review that is running, and how they end: agent/reviewer_publish.py
-- and agent/utils/github_checks.py. The requests are parameters on the state.
use loupfeed_agents.Common.{
  ℕ, String, Bool, Option, none, some, [], ◌∷◌, ◌++◌, if◌then◌else◌, ◌==◌, nonempty, join, ◌⧺◌,
  show_ℕ,
}
use loupfeed_agents.Json.{Value, null, int, str, dict, ℤ, num_of, Fields, field, end, get}
use loupfeed_agents.Autofix.Prompts.{show_ℤ}
use loupfeed_agents.Findings.Client.{Client}
use loupfeed_agents.Findings.Mutate.{Result, ◌>>=◌, pure, get_thread_metadata}
use loupfeed_agents.Findings.Thread.{ThreadArgs, set_reviewer_thread_metadata}
use loupfeed_agents.Publish.Render.{issue_word, link}

-- `(conclusion, title, summary)`
pub record Conclusion : Type 0 where
  pub conclusion : String
  pub title : String
  pub summary : String

unfoldable pub review_check_conclusion : ℕ → Conclusion
unfolding issue_word show_ℕ
review_check_conclusion n =
    if n == 0
    then record {
      conclusion = "success";
      title = "No issues found";
      summary = "loupfeed agents reviewed this pull request and found no issues.";
    }
    else record {
      conclusion = "success";
      title = "Found " ⧺ (show_ℕ n ⧺ (" potential " ⧺ issue_word n));
      summary =
          "loupfeed agents surfaced "
          ⧺ (show_ℕ n ⧺ (" potential " ⧺ (issue_word n ⧺ " on this pull request.")));
    }

-- `status_comment_marker`
unfoldable pub status_comment_marker : ℤ → String
unfolding show_ℤ
status_comment_marker pr_number = "<!-- open-swe-reviewer-status pr=" ⧺ (show_ℤ pr_number ⧺ " -->")

-- `render_status_comment`; a link that is not there is an empty text
unfoldable pub render_status_comment : ℤ → String → String → String
unfolding link status_comment_marker
render_status_comment pr_number ui_url trace_url =
    let links =
      join " • " (link "Open in Web" ui_url ++ link "View loupfeed agents trace" trace_url) in
    join "\n\n" (
      "## 🔍 loupfeed agents Review: in progress\n\nloupfeed agents is reviewing this PR…"
        ∷ (if nonempty links then links ∷ [] else [])
      ++ status_comment_marker pr_number ∷ [])

-- the requests to GitHub for the pull request of the run
pub record Requests (S : Type 0) : Type 0 where
  pub post_status_comment : String → S → Result (Option ℤ) × S
  pub delete_status_comment : ℤ → S → Result Bool × S
  pub complete_review_check_run : ℤ → Conclusion → S → Result Bool × S

-- no argument but the thread
abbrev pub no_args : ThreadArgs
no_args = record {
  pr = none;
  last_reviewed_sha = none;
  head_sha = none;
  watch = none;
  findings = none;
  slack_thread = none;
  extra = none;
}

abbrev pub with_keys : Fields → ThreadArgs
with_keys e = record no_args { extra = some e }

abbrev pub comment_is : Value → Fields
comment_is v = field "status_comment_id" v end

abbrev pub settled_keys : Fields
settled_keys = field "review_check_run_id" null (field "review_check_pending_result" null end)

-- the result that a later call is to report
abbrev pub pending_result : Conclusion → Value
pending_result k = dict (
    field "conclusion" (str k.conclusion)
      (field "title" (str k.title) (field "summary" (str k.summary) end)))

abbrev pub pending_keys : Conclusion → Fields
pending_keys k = field "review_check_pending_result" (pending_result k) end

comment_value : Option ℤ → Value
comment_value none = null
comment_value (some z) = int z

module _ {S : Type 0} (c : Client S) (tid : String) (requests : Requests S) where
  -- behind the comment that lingers
  unfoldable pub refresh : Option ℤ → S → Result Bool × S
  refresh none = pure Bool.false
  refresh (some z) = requests.delete_status_comment z

  -- `post_review_started_comment`
  unfoldable pub post_review_started_comment : ℤ → String → String → S → Result (Option ℤ) × S
  unfolding get_thread_metadata num_of get refresh render_status_comment comment_value
      set_reviewer_thread_metadata
  post_review_started_comment pr_number ui_url trace_url = do
    metadata ← get_thread_metadata c tid
    deleted ← refresh (num_of (get "status_comment_id" metadata))
    new_id ← requests.post_status_comment (render_status_comment pr_number ui_url trace_url)
    stored ← set_reviewer_thread_metadata c tid (with_keys (comment_is (comment_value new_id)))
    pure new_id

  unfoldable pub clear_comment : Option ℤ → S → Result (Unit {0}) × S
  unfolding set_reviewer_thread_metadata
  clear_comment none = pure tt
  clear_comment (some z) = do
    deleted ← requests.delete_status_comment z
    set_reviewer_thread_metadata c tid (with_keys (comment_is null))

  -- `clear_review_started_comment`
  unfoldable pub clear_review_started_comment : S → Result (Unit {0}) × S
  unfolding get_thread_metadata num_of get clear_comment
  clear_review_started_comment = do
    metadata ← get_thread_metadata c tid
    clear_comment (num_of (get "status_comment_id" metadata))

  -- what is stored behind the request
  unfoldable pub record_settled : Conclusion → Bool → S → Result (Unit {0}) × S
  unfolding set_reviewer_thread_metadata
  record_settled k ok =
      set_reviewer_thread_metadata c tid (with_keys (if ok then settled_keys else pending_keys k))

  unfoldable pub settle_run : Conclusion → Option ℤ → S → Result (Unit {0}) × S
  unfolding record_settled
  settle_run k none = pure tt
  settle_run k (some z) = do ok ← requests.complete_review_check_run z k; record_settled k ok

  -- `settle_review_check_run`
  unfoldable pub settle_review_check_run : Conclusion → S → Result (Unit {0}) × S
  unfolding get_thread_metadata num_of get settle_run
  settle_review_check_run k = do
    metadata ← get_thread_metadata c tid
    settle_run k (num_of (get "review_check_run_id" metadata))
