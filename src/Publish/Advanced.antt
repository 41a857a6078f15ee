-- ===== src/Publish/Advanced.antt =====
-- The head that was reviewed last: a publication that succeeds stores it, and an error leaves it.
use loupfeed_agents.Common.{
  ℕ, String, ◌≡◌, refl, sym, ap, subst, ◌∙◌, Bool, true, false, Option, List, arith, length, ◌-◌,
  if◌then◌else◌,
}
use loupfeed_agents.Json.{Value, str, Fields, get, num_of}
use loupfeed_agents.Findings.Client.{Client, IsMerging, found}
use loupfeed_agents.Findings.Mutate.{Result, ok, ◌>>=◌, pure, list_findings}
use loupfeed_agents.Findings.Found.{then_run-ok}
use loupfeed_agents.Publish.Sweep.{resolve_threads_for_resolved_findings}
use loupfeed_agents.Publish.Host.{
  Host, Run, Outcome, refused, skipped, reviewed, Attempt, failed, taken, open_count,
}
use loupfeed_agents.Publish.Flow.{
  record_posted, first_slack_reply, finish, attempt, is_skipped, publish_attempt, publish_skipped,
  publish_pairs,
}
use loupfeed_agents.Publish.Keeps.{Keeps, sha_at}
use loupfeed_agents.Publish.Before.{HostApart, attempt-Keeps, is_skipped-Keeps}
use loupfeed_agents.Publish.Finish.{finish-sha}

module _ {S : Type 0} (c : Client S) (tid : String) (host : Host S) (apart : HostApart c tid host)
    (merging : IsMerging c) (reads : (s : S) → (thread : Value) × (c.fetch tid s ≡ found thread))
    (json_loads : String → Option Value) where
  -- What has become of the head: it is stored behind a review, and as it was behind an error.
  abbrev pub Advanced : String → S → Outcome → S → Type 0
  Advanced head s (refused error dropped) s' = sha_at c tid s' ≡ sha_at c tid s
  Advanced head s (skipped hidden resolved) s' = sha_at c tid s' ≡ str head
  Advanced head s (reviewed review n hidden resolved dropped) s' = sha_at c tid s' ≡ str head

  pub Advanced-from :
      (head : String) (s t : S) (o : Outcome) (s' : S)
      → sha_at c tid t ≡ sha_at c tid s
      → Advanced head t o s'
      → Advanced head s o s'
  Advanced-from head s t (refused error dropped) s' e h = h ∙ e
  Advanced-from head s t (skipped hidden resolved) s' e h = h
  Advanced-from head s t (reviewed review n hidden resolved dropped) s' e h = h

  Advanced-same :
      (head : String) (s : S) (o o' : Outcome) (s' t : S)
      → pure o t ≡ (ok o', s')
      → Advanced head s o t
      → Advanced head s o' s'
  Advanced-same head s o o' s' t e h =
      let both : (o ≡ o') × (t ≡ s') = ground (arith, e) in
      subst (λ (q : Outcome). Advanced head s q s') both.0
        (subst (λ (u : S). Advanced head s o u) both.1 h)

  publish_skipped-Advanced :
      (head : String) (n : ℕ) (fs : List Fields) (s : S) (o : Outcome) (s' : S)
      → publish_skipped c tid host json_loads head n fs s ≡ (ok o, s')
      → Advanced head s o s'
  unfolding publish_skipped
  publish_skipped-Advanced head n fs s o s' run =
      let resolved =
        then_run-ok (resolve_threads_for_resolved_findings c tid host.github fs s) _ o s' run in
      let finished =
        then_run-ok (finish c tid host json_loads head 0 resolved.1) _ o s' resolved.3 in
      Advanced-same head s (skipped n resolved.0) o s' finished.1 finished.3 (
        finish-sha c tid host apart merging reads json_loads head 0 resolved.1 finished.1
          finished.2)

  publish_attempt-Advanced :
      (r : Run) (head : String) (n : ℕ) (a : Attempt) (s : S) (o : Outcome) (s' : S)
      → publish_attempt c tid host json_loads r head n a s ≡ (ok o, s')
      → Advanced head s o s'
  unfolding publish_attempt
  publish_attempt-Advanced r head n (failed error dropped) s o s' run =
      Advanced-same head s (refused error dropped) o s' s run refl
  publish_attempt-Advanced r head n (taken response pairs dropped) s o s' run =
      let review = num_of (get "id" response) in
      let recorded =
        then_run-ok (record_posted c tid host json_loads r review pairs s) _ o s' run in
      let listed = then_run-ok (list_findings c tid recorded.1) _ o s' recorded.3 in
      let resolved =
        then_run-ok (resolve_threads_for_resolved_findings c tid host.github listed.0 listed.1) _ o
          s' listed.3 in
      let told =
        then_run-ok (first_slack_reply c tid host json_loads r review (length pairs) resolved.1) _ o
          s' resolved.3 in
      let finished =
        then_run-ok (finish c tid host json_loads head (length pairs) told.1) _ o s' told.3 in
      Advanced-same head s (reviewed review (length pairs) (n - length pairs) resolved.0 dropped) o
        s' finished.1 finished.3
        (finish-sha c tid host apart merging reads json_loads head (length pairs) told.1 finished.1
          finished.2)

  pub publish_pairs-Advanced :
      (r : Run) (head trace_url : String) (fs : List Fields) (pairs : List (Fields × Fields))
      (s : S) (o : Outcome) (s' : S)
      → publish_pairs c tid host json_loads r head trace_url fs pairs s ≡ (ok o, s')
      → Advanced head s o s'
  unfolding publish_pairs
  publish_pairs-Advanced r head trace_url fs pairs s o s' run =
      let skip = then_run-ok (is_skipped c tid host json_loads r.is_re_review pairs s) _ o s' run in
      let n = open_count r.is_re_review head fs in
      let unchanged =
        ap (λ (x : Result Bool × S). sha_at c tid x.1) (sym skip.2)
        ∙ Keeps.same (is_skipped-Keeps c tid host apart json_loads r.is_re_review pairs) s in
      Advanced-from head s skip.1 o s' unchanged (decided skip.0 skip.1 skip.3)
    where
      decided :
          (b : Bool) (t : S)
          → (if b
                then publish_skipped c tid host json_loads head
                    (open_count r.is_re_review head fs)
                    fs
                else (attempt c tid host json_loads r head trace_url pairs >>= λ a.
                    publish_attempt c tid host json_loads r head
                      (open_count r.is_re_review head fs)
                      a))
              t
            ≡ (ok o, s')
          → Advanced head t o s'
      decided true t run =
          publish_skipped-Advanced head (open_count r.is_re_review head fs) fs t o s' run
      decided false t run =
          let a = then_run-ok (attempt c tid host json_loads r head trace_url pairs t) _ o s' run in
          Advanced-from head t a.1 o s'
            (ap (λ (x : Result Attempt × S). sha_at c tid x.1) (sym a.2)
              ∙ Keeps.same (attempt-Keeps c tid host apart json_loads r head trace_url pairs) t)
            (publish_attempt-Advanced r head (open_count r.is_re_review head fs) a.0 a.1 o s' a.3)
