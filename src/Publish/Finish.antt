-- ===== src/Publish/Finish.antt =====
-- The end of a publication, and the backfill in front of it: what they store of the head that was
-- reviewed last.
use loupfeed_agents.Common.{
  ℕ, String, ◌≡◌, refl, sym, ap, ◌∙◌, Bool, true, false, Option, none, some, List, null,
}
use loupfeed_agents.Json.{Value, ℤ, null as json_null, str, Fields, has}
use loupfeed_agents.Findings.Client.{Client, IsMerging, found}
use loupfeed_agents.Findings.Mutate.{Result, ok}
use loupfeed_agents.Findings.Found.{then_run-ok}
use loupfeed_agents.Findings.Thread.{thread_metadata, set_reviewer_thread_metadata}
use loupfeed_agents.Reconcile.Run.{store_reconciled, reconcile_findings_with_review_threads}
use loupfeed_agents.Publish.Settle.{
  Conclusion, no_args, with_keys, comment_is, settled_keys, pending_keys, clear_comment,
  clear_review_started_comment, record_settled, settle_run, settle_review_check_run,
  review_check_conclusion,
}
use loupfeed_agents.Publish.Host.{Host}
use loupfeed_agents.Publish.Flow.{backfilled, backfill_findings, finish}
use loupfeed_agents.Publish.Keeps.{
  Keeps, sha_at, bind-Keeps, pure-Keeps, branch-Keeps, fetch-Keeps, get_thread_metadata-Keeps,
  list_findings-Keeps, replace_findings-Keeps, set_reviewer_thread_metadata-Keeps,
  set_reviewer_thread_metadata-sha,
}
use loupfeed_agents.Publish.Before.{HostApart}

module _ {S : Type 0} (c : Client S) (tid : String) (host : Host S) (apart : HostApart c tid host)
    (merging : IsMerging c)
    (reads : (s : S) → (thread : Value) × (c.fetch tid s ≡ found thread)) where
  store_reconciled-Keeps : (x : List Fields × Bool) → Keeps c tid (store_reconciled c tid x)
  unfolding store_reconciled
  store_reconciled-Keeps (fs, updated) =
      branch-Keeps c tid updated
        (bind-Keeps c tid (replace_findings-Keeps c tid merging reads fs)
          (λ w. pure-Keeps c tid fs))
        (pure-Keeps c tid fs)

  comment_cleared-Keeps :
      Keeps c tid (set_reviewer_thread_metadata c tid (with_keys (comment_is json_null)))
  unfolding thread_metadata has
  comment_cleared-Keeps =
      set_reviewer_thread_metadata-Keeps c tid merging reads (with_keys (comment_is json_null))
        (refl, (refl, tt)) refl

  clear_comment-Keeps : (o : Option ℤ) → Keeps c tid (clear_comment c tid host.requests o)
  unfolding clear_comment
  clear_comment-Keeps none = pure-Keeps c tid tt
  clear_comment-Keeps (some z) =
      bind-Keeps c tid (fetch-Keeps c tid (apart.deletions z)) (λ d. comment_cleared-Keeps)

  clear_review_started_comment-Keeps :
      Keeps c tid (clear_review_started_comment c tid host.requests)
  unfolding clear_review_started_comment
  clear_review_started_comment-Keeps =
      bind-Keeps c tid (get_thread_metadata-Keeps c tid) (λ md. clear_comment-Keeps _)

  record_settled-Keeps :
      (k : Conclusion) (ok : Bool) → Keeps c tid (record_settled c tid host.requests k ok)
  unfolding record_settled thread_metadata has
  record_settled-Keeps k true =
      set_reviewer_thread_metadata-Keeps c tid merging reads (with_keys settled_keys)
        (refl, (refl, (refl, tt))) refl
  record_settled-Keeps k false =
      set_reviewer_thread_metadata-Keeps c tid merging reads (with_keys (pending_keys k))
        (refl, (refl, tt)) refl

  settle_run-Keeps :
      (k : Conclusion) (o : Option ℤ) → Keeps c tid (settle_run c tid host.requests k o)
  unfolding settle_run
  settle_run-Keeps k none = pure-Keeps c tid tt
  settle_run-Keeps k (some z) =
      bind-Keeps c tid (fetch-Keeps c tid (apart.completions z k)) (λ ok. record_settled-Keeps k ok)

  settle_review_check_run-Keeps :
      (k : Conclusion) → Keeps c tid (settle_review_check_run c tid host.requests k)
  unfolding settle_review_check_run
  settle_review_check_run-Keeps k =
      bind-Keeps c tid (get_thread_metadata-Keeps c tid) (λ md. settle_run-Keeps k _)

  module _ (json_loads : String → Option Value) where
    reconciled-Keeps :
        (ts : List Fields)
        → Keeps c tid (reconcile_findings_with_review_threads c tid json_loads ts)
    unfolding reconcile_findings_with_review_threads
    reconciled-Keeps ts =
        bind-Keeps c tid (list_findings-Keeps c tid)
          (λ fs. branch-Keeps c tid (null fs) (pure-Keeps c tid fs) (store_reconciled-Keeps _))

    backfilled-Keeps : (fs : List Fields) → Keeps c tid (backfilled c tid host json_loads fs)
    unfolding backfilled
    backfilled-Keeps fs = branch-Keeps c tid (null fs) (pure-Keeps c tid fs) (
        bind-Keeps c tid (fetch-Keeps c tid apart.review_threads)
          (λ ts. branch-Keeps c tid (null ts) (pure-Keeps c tid fs) (reconciled-Keeps ts)))

    pub backfill_findings-Keeps : Keeps c tid (backfill_findings c tid host json_loads)
    unfolding backfill_findings
    backfill_findings-Keeps = bind-Keeps c tid (list_findings-Keeps c tid) backfilled-Keeps

    pub finish-sha :
        (head : String) (n : ℕ) (s s' : S)
        → finish c tid host json_loads head n s ≡ (ok tt, s')
        → sha_at c tid s' ≡ str head
    unfolding finish thread_metadata has
    finish-sha head n s s' run =
        let advanced =
          then_run-ok
            (set_reviewer_thread_metadata c tid (record no_args { last_reviewed_sha = some head })
              s)
            _ tt s' run in
        let cleared =
          then_run-ok (clear_review_started_comment c tid host.requests advanced.1) _ tt s'
            advanced.3 in
        let k = review_check_conclusion n in
        let settled : sha_at c tid s' ≡ sha_at c tid cleared.1 =
          ap (λ (x : Result (Unit {0}) × S). sha_at c tid x.1) (sym cleared.3)
          ∙ Keeps.same (settle_review_check_run-Keeps k) cleared.1 in
        let clear_keeps : sha_at c tid cleared.1 ≡ sha_at c tid advanced.1 =
          ap (λ (x : Result (Unit {0}) × S). sha_at c tid x.1) (sym cleared.2)
          ∙ Keeps.same clear_review_started_comment-Keeps advanced.1 in
        settled
        ∙ clear_keeps
        ∙ set_reviewer_thread_metadata-sha c tid merging reads
            (record no_args { last_reviewed_sha = some head }) s advanced.1 (refl, (refl, tt)) refl
            advanced.2
