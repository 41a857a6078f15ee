-- ===== src/Publish/Before.antt =====
-- A publication before its end: none of its calls writes the head that was reviewed last.
use loupfeed_agents.Common.{String, ◌≡◌, Bool, true, false, Option, none, some, List, [], ◌∷◌}
use loupfeed_agents.Json.{Value, ℤ, Fields}
use loupfeed_agents.Findings.Client.{Client}
use loupfeed_agents.Publish.Drop.{resolve_diff_line_set, filter_against_pr_diff}
use loupfeed_agents.Diff.Anchor.{LineSet}
use loupfeed_agents.Publish.Settle.{Conclusion}
use loupfeed_agents.Publish.Host.{Host, Run, is_unresolved, judged}
use loupfeed_agents.Publish.Flow.{
  reviewed_before, already_reviewed, is_skipped, post, retry, answered, attempt,
}
use loupfeed_agents.Publish.Keeps.{
  Keeps, bind-Keeps, pure-Keeps, branch-Keeps, fetch-Keeps, get_thread_metadata-Keeps,
}

-- The calls of GitHub and for the trace link leave the thread of the review alone.
pub record HostApart {S : Type 0} (c : Client S) (tid : String) (host : Host S) : Type 0 where
  pub review_threads :
      (s : S) → c.fetch tid (host.github.fetch_pr_review_threads s).1 ≡ c.fetch tid s
  pub deletions :
      (z : ℤ) (s : S) → c.fetch tid (host.requests.delete_status_comment z s).1 ≡ c.fetch tid s
  pub completions :
      (z : ℤ) (k : Conclusion) (s : S)
      → c.fetch tid (host.requests.complete_review_check_run z k s).1 ≡ c.fetch tid s
  pub posts :
      (head body : String) (comments : List Fields) (s : S)
      → c.fetch tid (host.post_pull_request_review head body comments s).1 ≡ c.fetch tid s
  pub diffs : (s : S) → c.fetch tid (host.fetch_pr_diff s).1 ≡ c.fetch tid s
  pub reviews : (s : S) → c.fetch tid (host.open_swe_review_exists s).1 ≡ c.fetch tid s
  pub links : (s : S) → c.fetch tid (host.resolve_review_trace_url s).1 ≡ c.fetch tid s

-- `Keeps` of the calls that do not write the findings
module _ {S : Type 0} (c : Client S) (tid : String) (host : Host S)
    (apart : HostApart c tid host) where
  resolve_diff_line_set-Keeps :
      (cached : Option LineSet) → Keeps c tid (resolve_diff_line_set host.fetch_pr_diff cached)
  unfolding resolve_diff_line_set
  resolve_diff_line_set-Keeps none =
      bind-Keeps c tid (fetch-Keeps c tid apart.diffs) (λ text. pure-Keeps c tid _)
  resolve_diff_line_set-Keeps (some lines) = pure-Keeps c tid _

  filter_against_pr_diff-Keeps :
      (cached : Option LineSet) (pairs : List (Fields × Fields))
      → Keeps c tid (filter_against_pr_diff host.fetch_pr_diff cached pairs)
  unfolding filter_against_pr_diff
  filter_against_pr_diff-Keeps cached pairs =
      bind-Keeps c tid (resolve_diff_line_set-Keeps cached) (λ lines. pure-Keeps c tid _)

  module _ (json_loads : String → Option Value) where
    post-Keeps :
        (r : Run) (head trace_url : String) (pairs : List (Fields × Fields))
        → Keeps c tid (post c tid host json_loads r head trace_url pairs)
    unfolding post
    post-Keeps r head trace_url pairs = fetch-Keeps c tid (apart.posts _ _ _)

    retry-Keeps :
        (r : Run) (head trace_url : String) (response : Fields)
        (split : List (Fields × Fields) × List String)
        → Keeps c tid (retry c tid host json_loads r head trace_url response split)
    unfolding retry
    retry-Keeps r head trace_url response (valid, dropped) =
        branch-Keeps c tid _
          (bind-Keeps c tid (post-Keeps r head trace_url valid) (λ again. pure-Keeps c tid _))
          (pure-Keeps c tid _)

    answered-Keeps :
        (r : Run) (head trace_url : String) (pairs : List (Fields × Fields)) (response : Fields)
        → Keeps c tid (answered c tid host json_loads r head trace_url pairs response)
    unfolding answered
    answered-Keeps r head trace_url pairs response =
        branch-Keeps c tid (is_unresolved response)
          (bind-Keeps c tid (filter_against_pr_diff-Keeps r.diff_line_set pairs)
            (λ split. retry-Keeps r head trace_url response split))
          (pure-Keeps c tid (judged response pairs []))

    pub attempt-Keeps :
        (r : Run) (head trace_url : String) (pairs : List (Fields × Fields))
        → Keeps c tid (attempt c tid host json_loads r head trace_url pairs)
    unfolding attempt
    attempt-Keeps r head trace_url pairs =
        bind-Keeps c tid (post-Keeps r head trace_url pairs)
          (λ response. answered-Keeps r head trace_url pairs response)

    reviewed_before-Keeps : Keeps c tid (reviewed_before c tid host json_loads)
    unfolding reviewed_before
    reviewed_before-Keeps = bind-Keeps c tid (get_thread_metadata-Keeps c tid) (λ md.
        branch-Keeps c tid _ (pure-Keeps c tid true)
          (bind-Keeps c tid (fetch-Keeps c tid apart.reviews) (λ e. pure-Keeps c tid _)))

    pub is_skipped-Keeps :
        (is_re_review : Bool) (pairs : List (Fields × Fields))
        → Keeps c tid (is_skipped c tid host json_loads is_re_review pairs)
    unfolding is_skipped already_reviewed
    is_skipped-Keeps is_re_review [] =
        branch-Keeps c tid is_re_review (pure-Keeps c tid true) reviewed_before-Keeps
    is_skipped-Keeps is_re_review (p ∷ ps) = pure-Keeps c tid false
