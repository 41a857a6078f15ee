-- ===== src/Reconcile/Stored.antt =====
-- The store behind a reconciliation: what is returned is what is stored, whether there was a write
-- or not.
use loupfeed_agents.Common.{
  String, ◌≡◌, refl, sym, ap, subst, ◌∙◌, Bool, true, false, ◌||◌, Option, List, [], ◌∷◌, map,
  arith, All, Bool-cases, inl, inr, null, if◌then◌else◌,
}
use loupfeed_agents.Json.{Value, Fields, field, end, get, is_str}
use loupfeed_agents.Findings.Coerce.{HasId, coerce_findings_list-HasId, findings_value}
use loupfeed_agents.Findings.Client.{Client, IsMerging, found, done, metadata_of}
use loupfeed_agents.Findings.Mutate.{ok, then_run, pure, list_findings, replace_findings}
use loupfeed_agents.Findings.Stored.{
  findings_of, Frame, list_findings-found, written_findings, unchanged-Frame,
}
use loupfeed_agents.Reconcile.Match.{
  Match, Index, index_review_threads, find_review_threads_for_finding,
}
use loupfeed_agents.Reconcile.Sync.{sync_publication_identity, sync_thread_status}
use loupfeed_agents.Reconcile.Latest.{
  sync_latest_human_reply, reply_target, latest_to, sync_reply_id, sync_reply_unchanged,
}
use loupfeed_agents.Reconcile.Run.{
  sync_matches, reconcile_finding, reconcile_all, store_reconciled,
  reconcile_findings_with_review_threads,
}
use loupfeed_agents.Reconcile.Kept.{
  Kept, nothing-Kept, sync_comment-Kept, sync_thread-Kept, sync_surface-Kept,
  sync_thread_status-Kept,
}

sync_publication_identity-Kept : (f : Fields) (m : Match) → Kept f (sync_publication_identity f m)
unfolding sync_publication_identity
sync_publication_identity-Kept f (thread, comment) =
    sync_surface-Kept f comment (get "id" thread) _ (
      sync_thread-Kept f (get "id" thread) _
        (sync_comment-Kept f comment (f, false) (nothing-Kept f)))

sync_latest_human_reply-Kept : (f : Fields) (m : Match) → Kept f (sync_latest_human_reply f m)
unfolding sync_latest_human_reply
sync_latest_human_reply-Kept f m = record {
  id = sync_reply_id (reply_target f m) (latest_to (reply_target f m) m.0) f;
  same = sync_reply_unchanged (reply_target f m) (latest_to (reply_target f m) m.0) f;
}

-- one change behind another
pub Kept-then :
    (f g : Fields) (u v : Bool) (h : Fields) → Kept f (g, u) → Kept g (h, v) → Kept f (h, v || u)
Kept-then f g u v h k l = record {
  id = l.id ∙ k.id;
  same = λ e. l.same (ground (arith, e)) ∙ k.same (ground (arith, e));
}

sync_matches-Kept :
    (f : Fields) (ms : List Match) (g : Fields) (u : Bool)
    → Kept f (g, u)
    → Kept f (sync_matches ms (g, u))
unfolding sync_matches
sync_matches-Kept f [] g u k = k
sync_matches-Kept f (m ∷ ms) g u k =
    let published = sync_publication_identity g m in
    let replied = sync_latest_human_reply published.0 m in
    sync_matches-Kept f ms replied.0 (replied.1 || (published.1 || u)) (
      Kept-then f published.0 (published.1 || u) replied.1 replied.0
        (Kept-then f g u published.1 published.0 k (sync_publication_identity-Kept g m))
        (sync_latest_human_reply-Kept published.0 m))

reconcile_finding-Kept : (idx : Index) (f : Fields) → Kept f (reconcile_finding idx f)
unfolding reconcile_finding
reconcile_finding-Kept idx f =
    let matches = find_review_threads_for_finding f idx in
    let matched = sync_matches matches (f, false) in
    let settled = sync_thread_status matched.0 matches in
    Kept-then f matched.0 matched.1 settled.1 settled.0
      (sync_matches-Kept f matches f false (nothing-Kept f))
      (sync_thread_status-Kept matched.0 matches)

reconcile_all-HasId :
    (idx : Index) (fs : List Fields) → All HasId fs → All HasId (reconcile_all idx fs).0
unfolding reconcile_all
reconcile_all-HasId idx [] h = tt
reconcile_all-HasId idx (f ∷ fs) h =
    (ap is_str (Kept.id (reconcile_finding-Kept idx f)) ∙ h.0, reconcile_all-HasId idx fs h.1)

reconcile_all-map :
    (idx : Index) (fs : List Fields)
    → (reconcile_all idx fs).0 ≡ map (λ f. (reconcile_finding idx f).0) fs
unfolding reconcile_all
reconcile_all-map idx [] = refl
reconcile_all-map idx (f ∷ fs) =
    ap (λ (l : List Fields). (reconcile_finding idx f).0 ∷ l) (reconcile_all-map idx fs)

pub or_false : (a b : Bool) → (a || b) ≡ false → (a ≡ false) × (b ≡ false)
or_false a b h = ground (arith, h)

reconcile_all_unchanged :
    (idx : Index) (fs : List Fields)
    → (reconcile_all idx fs).1 ≡ false
    → (reconcile_all idx fs).0 ≡ fs
unfolding reconcile_all
reconcile_all_unchanged idx [] h = refl
reconcile_all_unchanged idx (f ∷ fs) h =
    let kept = reconcile_finding-Kept idx f in
    let quiet = or_false (reconcile_finding idx f).1 (reconcile_all idx fs).1 h in
    let front : (reconcile_finding idx f).0 ≡ f = kept.same quiet.0 in
    let back : (reconcile_all idx fs).0 ≡ fs = reconcile_all_unchanged idx fs quiet.1 in
    ap (λ (g : Fields). g ∷ (reconcile_all idx fs).0) front ∙ ap (λ (l : List Fields). f ∷ l) back

module _ {S : Type 0} (c : Client S) (tid : String) (s : S) where
  store_reconciled-done :
      (fs rs : List Fields) (s' : S)
      → store_reconciled c tid (fs, true) s ≡ (ok rs, s')
      → (rs ≡ fs) × (c.write tid (field "findings" (findings_value fs) end) s ≡ done s')
  unfolding store_reconciled replace_findings
  store_reconciled-done fs rs s' h = ground (arith, h)

  pure_ok : {A : Type 0} (a b : A) (s' : S) → pure a s ≡ (ok b, s') → (b ≡ a) × (s' ≡ s)
  pure_ok a b s' h = ground (arith, h)

  unchanged_ok :
      (fs rs : List Fields) (s' : S)
      → store_reconciled c tid (fs, false) s ≡ (ok rs, s')
      → (rs ≡ fs) × (s' ≡ s)
  unfolding store_reconciled
  unchanged_ok fs rs s' h = pure_ok fs rs s' h

  -- the findings with the store as it is, or with the write
  reconciled-Frame :
      (merging : IsMerging c) (thread : Value) (h : c.fetch tid s ≡ found thread) (idx : Index)
      (rs : List Fields) (s' : S)
      → store_reconciled c tid (reconcile_all idx (findings_of thread)) s ≡ (ok rs, s')
      → (rs ≡ (reconcile_all idx (findings_of thread)).0)
        × (list_findings c tid s' ≡ (ok rs, s'))
        × Frame c tid thread s s'
  reconciled-Frame merging thread h idx rs s' run =
      elim (Bool-cases (reconcile_all idx (findings_of thread)).1) [
        | inl e ↦
            let w = store_reconciled-done (reconcile_all idx (findings_of thread)).0 rs s' (
              ap
                (λ (u : Bool).
                  store_reconciled c tid ((reconcile_all idx (findings_of thread)).0, u) s)
                (sym e)
              ∙ run) in
            let ids =
              reconcile_all-HasId idx (findings_of thread)
                (coerce_findings_list-HasId (get "findings" (metadata_of thread))) in
            let stored =
              written_findings c merging tid s thread h (reconcile_all idx (findings_of thread)).0
                s' ids w.1 in
            (w.0, stored.0 ∙ ap (λ (l : List Fields). (ok l, s')) (sym w.0), stored.1)
        | inr e ↦
            let fs = (reconcile_all idx (findings_of thread)).0 in
            let w =
              unchanged_ok fs rs s'
                (ap (λ (u : Bool). store_reconciled c tid (fs, u) s) (sym e) ∙ run) in
            let all_same : rs ≡ findings_of thread =
              w.0 ∙ reconcile_all_unchanged idx (findings_of thread) e in
            subst
              (λ (t : S). (rs ≡ fs) × (list_findings c tid t ≡ (ok rs, t)) × Frame c tid thread s t)
              (sym w.1)
              (
                w.0,
                list_findings-found c tid s thread h
                    ∙ ap (λ (l : List Fields). (ok l, s)) (sym all_same),
                unchanged-Frame c tid s thread h,
              )
      ]

  empty_same :
      (idx : Index) (fs : List Fields)
      → (if null fs then pure fs else store_reconciled c tid (reconcile_all idx fs)) s
        ≡ store_reconciled c tid (reconcile_all idx fs) s
  unfolding store_reconciled reconcile_all
  empty_same idx [] = refl
  empty_same idx (f ∷ fs) = refl

-- With a client that merges, on a thread that can be read: a reconciliation that returns has returned the findings that the
-- store holds behind it: those that were there, each synced with its review threads, in their
-- order. It has changed nothing else.
pub reconcile_findings_with_review_threads-Frame :
    {S : Type 0} (c : Client S) (merging : IsMerging c) (tid : String) (s : S) (thread : Value)
    (json_loads : String → Option Value) (review_threads : List Fields) (rs : List Fields) (s' : S)
    → c.fetch tid s ≡ found thread
    → reconcile_findings_with_review_threads c tid json_loads review_threads s ≡ (ok rs, s')
    → (rs
        ≡ map
            (λ f. (reconcile_finding (index_review_threads json_loads review_threads) f).0)
            (findings_of thread))
      × (list_findings c tid s' ≡ (ok rs, s'))
      × Frame c tid thread s s'
unfolding reconcile_findings_with_review_threads
reconcile_findings_with_review_threads-Frame c merging tid s thread json_loads review_threads rs s'
      h run =
    let idx = index_review_threads json_loads review_threads in
    let fs = findings_of thread in
    let body : store_reconciled c tid (reconcile_all idx fs) s ≡ (ok rs, s') =
      sym (empty_same c tid s idx fs)
      ∙ sym (
          ap
            (then_run (λ (l : List Fields).
              if null l then pure l else store_reconciled c tid (reconcile_all idx l)))
            (list_findings-found c tid s thread h))
      ∙ run in
    let result = reconciled-Frame c tid s merging thread h idx rs s' body in
    (result.0 ∙ reconcile_all-map idx fs, result.1, result.2)
