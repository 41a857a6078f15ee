-- ===== src/Reconcile/Run.antt =====
-- `reconcile_findings_with_review_threads`: all findings of a thread, over all review threads.
use loupfeed_agents.Common.{String, Bool, false, ◌||◌, Option, List, [], ◌∷◌, null, if◌then◌else◌}
use loupfeed_agents.Json.{Value, Fields}
use loupfeed_agents.Findings.Client.{Client}
use loupfeed_agents.Findings.Mutate.{Result, ◌>>=◌, pure, list_findings, replace_findings}
use loupfeed_agents.Reconcile.Match.{
  Match, Index, index_review_threads, find_review_threads_for_finding,
}
use loupfeed_agents.Reconcile.Sync.{Synced, sync_publication_identity, sync_thread_status}
use loupfeed_agents.Reconcile.Latest.{sync_latest_human_reply}

-- the loop over the matches of a finding
unfoldable pub sync_matches : List Match → Synced → Synced
unfolding sync_publication_identity sync_latest_human_reply
sync_matches [] x = x
sync_matches (m ∷ ms) (f, updated) =
    let published = sync_publication_identity f m in
    let replied = sync_latest_human_reply published.0 m in
    sync_matches ms (replied.0, replied.1 || (published.1 || updated))

-- the turn of the loop over the findings
unfoldable pub reconcile_finding : Index → Fields → Synced
unfolding find_review_threads_for_finding sync_matches sync_thread_status
reconcile_finding idx f =
    let matches = find_review_threads_for_finding f idx in
    let matched = sync_matches matches (f, false) in
    let settled = sync_thread_status matched.0 matches in (settled.0, settled.1 || matched.1)

unfoldable pub reconcile_all : Index → List Fields → List Fields × Bool
unfolding reconcile_finding
reconcile_all idx [] = ([], false)
reconcile_all idx (f ∷ fs) =
    let rest = reconcile_all idx fs in
    ((reconcile_finding idx f).0 ∷ rest.0, (reconcile_finding idx f).1 || rest.1)

module _ {S : Type 0} (c : Client S) (tid : String) where
  -- the return of the findings, behind the write where there is a change
  unfoldable pub store_reconciled : List Fields × Bool → S → Result (List Fields) × S
  unfolding replace_findings
  store_reconciled (findings, updated) =
      if updated
      then (do written ← replace_findings c tid findings; pure findings)
      else pure findings

  unfoldable pub reconcile_findings_with_review_threads :
      (String → Option Value) → List Fields → S → Result (List Fields) × S
  unfolding list_findings index_review_threads reconcile_all store_reconciled
  reconcile_findings_with_review_threads json_loads review_threads = do
    findings ← list_findings c tid
    if null findings
        then pure findings
        else store_reconciled
            (reconcile_all (index_review_threads json_loads review_threads) findings)
