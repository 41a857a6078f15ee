-- ===== src/Resolve/GitHub.antt =====
-- The calls of GitHub and of the outcome data set that the tools make, as parameters on the state.
use loupfeed_agents.Common.{String, Bool, Option, List, ◌≡◌}
use loupfeed_agents.Json.{ℤ, Fields}
use loupfeed_agents.Findings.Client.{Client}
use loupfeed_agents.Findings.Mutate.{Result}

-- The requests of agent/reviewer_publish.py over HTTP for the pull request of the run, and
-- `emit_finding_status_outcome`, which stores an example for later training.
pub record GitHub (S : Type 0) : Type 0 where
  pub fetch_review_thread_id_for_comment : ℤ → S → Result (Option String) × S
  pub fetch_pr_review_threads : S → Result (List Fields) × S
  pub reply_to_review_comment : ℤ → String → S → Result (Option Fields) × S
  pub resolve_review_thread : String → S → Result Bool × S
  pub emit_finding_status_outcome : Fields → String → S → S

-- The outcome data set is not the store of the findings.
pub record EmitsApart {S : Type 0} (c : Client S) (tid : String) (gh : GitHub S) : Type 0 where
  pub same :
      (f : Fields) (status : String) (s : S)
      → c.fetch tid (gh.emit_finding_status_outcome f status s) ≡ c.fetch tid s
