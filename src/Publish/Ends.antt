-- ===== src/Publish/Ends.antt =====
-- How the check run of a review ends in the store.
use loupfeed_agents.Common.{String, ◌≡◌, Bool, Option, none, some, if◌then◌else◌}
use loupfeed_agents.Json.{Value, ℤ, null, Fields, get}
use loupfeed_agents.Findings.Client.{Client, IsMerging, found, metadata_of}
use loupfeed_agents.Findings.Mutate.{ok}
use loupfeed_agents.Publish.Settle.{Requests, Conclusion, pending_result}

-- The keys of the check run behind a request: cleared where it has succeeded, else the id as it was and the
-- result that is left to report.
pub record Settled (k : Conclusion) (succeeded : Bool) (before after : Fields) : Type 0 where
  pub id :
      get "review_check_run_id" after
      ≡ (if succeeded then null else get "review_check_run_id" before)
  pub pending :
      get "review_check_pending_result" after ≡ (if succeeded then null else pending_result k)
  pub head : get "last_reviewed_sha" after ≡ get "last_reviewed_sha" before

module _ {S : Type 0} (c : Client S) (tid : String) (requests : Requests S)
    (merging : IsMerging c) where
  -- What a settled check run leaves: nothing where none is open, else the keys by the answer to the request.
  abbrev pub Ended : Conclusion → Fields → S → Option ℤ → S → Type 0
  Ended k md s none s' = s' ≡ s
  Ended k md s (some z) s' =
      (succeeded : Bool) × (t : S) × (requests.complete_review_check_run z k s ≡ (ok succeeded, t))
      × (thread' : Value) × (c.fetch tid s' ≡ found thread')
      × Settled k succeeded md (metadata_of thread')
