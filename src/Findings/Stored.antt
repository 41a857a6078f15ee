-- ===== src/Findings/Stored.antt =====
-- What is stored after a mutation, and what it leaves alone.
use loupfeed_agents.Common.{
  String, ◌≡◌, ◌≢◌, refl, sym, ap, ◌∙◌, Bool, true, false, Option, none, some, List, [], ◌∷◌, ◌++◌,
  arith, All, eq_iff, Bool-cases, inl, inr, any,
}
use loupfeed_agents.Json.{
  Value, Fields, field, end, get, put, update, get-put, get-put_self, eq_text,
}
use loupfeed_agents.Findings.Coerce.{
  coerce_findings_list, findings_value, HasId, coerce-findings_value,
}
use loupfeed_agents.Findings.Client.{Client, IsMerging, Fetch, found, done, metadata_of}
use loupfeed_agents.Findings.Mutate.{
  read_metadata, ok, Mutated, get_thread_metadata, list_findings, replace_findings, mutate_findings,
  edit_first, then_run, store_mutated, pure,
}

abbrev pub findings_of : Value → List Fields
findings_of thread = coerce_findings_list (get "findings" (metadata_of thread))

-- A write of the findings alone: the other keys of the thread and the other threads are as before.
pub record Frame {S : Type 0} (c : Client S) (tid : String) (thread : Value) (s s' : S)
    : Type 0 where
  pub keys :
      (k : String) (thread' : Value)
      → k ≢ "findings"
      → c.fetch tid s' ≡ found thread'
      → get k (metadata_of thread') ≡ get k (metadata_of thread)
  pub others : (other : String) → tid ≢ other → c.fetch other s' ≡ c.fetch other s

pub stored-done :
    {S A : Type 0} (c : Client S) (tid : String) (m : Mutated A) (s : S) (r : A) (s' : S)
    → m.changed ≡ true
    → store_mutated c tid m s ≡ (ok r, s')
    → (c.write tid (field "findings" (findings_value m.findings) end) s ≡ done s')
      × (r ≡ m.captured)
unfolding store_mutated replace_findings
stored-done c tid m s r s' e run = ground (arith, e, run)

module _ {S : Type 0} (c : Client S) (tid : String) (s : S) (thread : Value)
    (h : c.fetch tid s ≡ found thread) where
  pub list_findings-found : list_findings c tid s ≡ (ok (findings_of thread), s)
  unfolding list_findings get_thread_metadata read_metadata
  list_findings-found =
      ap
        (λ (o : Fetch).
          then_run (λ (md : Fields). pure (coerce_findings_list (get "findings" md)))
            (read_metadata tid s o))
        h

  mutate-found :
      {A : Type 0} (mutator : List Fields → Mutated A)
      → mutate_findings c tid mutator s ≡ store_mutated c tid (mutator (findings_of thread)) s
  unfolding mutate_findings
  mutate-found mutator =
      ap (then_run (λ (fs : List Fields). store_mutated c tid (mutator fs))) list_findings-found

  pub mutate_unchanged :
      {A : Type 0} (mutator : List Fields → Mutated A)
      → (mutator (findings_of thread)).changed ≡ false
      → mutate_findings c tid mutator s ≡ (ok (mutator (findings_of thread)).captured, s)
  mutate_unchanged mutator e = mutate-found mutator ∙ unfold store_mutated in rw e

  pub mutate_changed :
      {A : Type 0} (mutator : List Fields → Mutated A) (r : A) (s' : S)
      → (mutator (findings_of thread)).changed ≡ true
      → mutate_findings c tid mutator s ≡ (ok r, s')
      → (c.write tid
            (field "findings" (findings_value (mutator (findings_of thread)).findings) end)
            s
          ≡ done s')
        × (r ≡ (mutator (findings_of thread)).captured)
  mutate_changed mutator r s' e run =
      stored-done c tid (mutator (findings_of thread)) s r s' e (sym (mutate-found mutator) ∙ run)

-- One finding edited: the first with the id, at its place in the list.
pub record EditedAt (fid : String) (edit : Fields → Fields × Bool) (fs fs' : List Fields)
    (f' : Fields) : Type 0 where
  pub before : List Fields
  pub target : Fields
  pub behind : List Fields
  pub split : fs ≡ before ++ target ∷ behind
  pub edited : fs' ≡ before ++ (edit target).0 ∷ behind
  pub first : any (λ f. eq_text (get "id" f) fid) before ≡ false
  pub hit : eq_text (get "id" target) fid ≡ true
  pub returned : f' ≡ (edit target).0

module _ (fid : String) (edit : Fields → Fields × Bool) where
  pub edit_first_hit :
      (f : Fields) (fs : List Fields)
      → eq_text (get "id" f) fid ≡ true
      → edit_first fid edit (f ∷ fs)
        ≡ record { findings = (edit f).0 ∷ fs; changed = (edit f).1; captured = some (edit f).0 }
  unfolding edit_first
  edit_first_hit f fs h = rw h

  pub edit_first_miss :
      (f : Fields) (fs : List Fields)
      → eq_text (get "id" f) fid ≡ false
      → edit_first fid edit (f ∷ fs)
        ≡ record (edit_first fid edit fs) { findings = f ∷ (edit_first fid edit fs).findings }
  unfolding edit_first
  edit_first_miss f fs h = rw h

  pub edit_first-none :
      (fs : List Fields)
      → (edit_first fid edit fs).captured ≡ none
      → (any (λ f. eq_text (get "id" f) fid) fs ≡ false)
        × ((edit_first fid edit fs).changed ≡ false)
  edit_first-none [] h = unfold edit_first in (refl, refl)
  edit_first-none (f ∷ fs) h = elim (Bool-cases (eq_text (get "id" f) fid)) [
    | inl hit ↦ absurd (cc (h, edit_first_hit f fs hit))
    | inr miss ↦
        let e = edit_first_miss f fs miss in
        let ih =
          edit_first-none fs (sym (ap (λ (m : Mutated (Option Fields)). m.captured) e) ∙ h) in
        (rw miss ih.0, rw e ih.1)
  ]

  pub edit_first-EditedAt :
      (fs : List Fields) (f' : Fields)
      → (edit_first fid edit fs).captured ≡ some f'
      → EditedAt fid edit fs (edit_first fid edit fs).findings f'
  edit_first-EditedAt [] f' h = absurd (unfold edit_first in cc h)
  edit_first-EditedAt (f ∷ fs) f' h = elim (Bool-cases (eq_text (get "id" f) fid)) [
    | inl hit ↦
        let e = edit_first_hit f fs hit in
        rw e (record {
          before = [];
          target = f;
          behind = fs;
          split = refl;
          edited = refl;
          first = refl;
          hit = hit;
          returned = cc (h, e);
        })
    | inr miss ↦
        let e = edit_first_miss f fs miss in
        let ih : EditedAt fid edit fs (edit_first fid edit fs).findings f' =
          edit_first-EditedAt fs f'
            (sym (ap (λ (m : Mutated (Option Fields)). m.captured) e) ∙ h) in
        rw e (record {
          before = f ∷ ih.before;
          target = ih.target;
          behind = ih.behind;
          split = ap (λ (l : List Fields). f ∷ l) ih.split;
          edited = ap (λ (l : List Fields). f ∷ l) ih.edited;
          first = rw miss ih.first;
          hit = ih.hit;
          returned = ih.returned;
        })
  ]

  pub edit_first-HasId :
      ((f : Fields) → HasId f → HasId (edit f).0)
      → (fs : List Fields) → All HasId fs
      → All HasId (edit_first fid edit fs).findings
  edit_first-HasId keep [] h = unfold edit_first in tt
  edit_first-HasId keep (f ∷ fs) h = elim (Bool-cases (eq_text (get "id" f) fid)) [
    | inl hit ↦ rw (edit_first_hit f fs hit) (keep f h.0, h.1)
    | inr miss ↦ rw (edit_first_miss f fs miss) (h.0, edit_first-HasId keep fs h.1)
  ]

update-findings : (v : Value) (d : Fields) → update d (field "findings" v end) ≡ put "findings" v d
unfolding update
update-findings v d = refl

findings-put :
    (fs : List Fields) (d : Fields)
    → All HasId fs
    → coerce_findings_list (get "findings" (put "findings" (findings_value fs) d)) ≡ fs
findings-put fs d ids = rw get-put_self (coerce-findings_value fs ids)

pub get-put_other : (k j : String) (v : Value) (d : Fields) → j ≢ k → get j (put k v d) ≡ get j d
get-put_other k j v d ne = get-put k j v d ∙ ground (arith, eq_iff k j, ne)

pub found-inj : {a b : Value} → found a ≡ found b → a ≡ b
found-inj {a} {b} h = ground (arith, h)

pub unchanged-Frame :
    {S : Type 0} (c : Client S) (tid : String) (s : S) (thread : Value)
    → c.fetch tid s ≡ found thread
    → Frame c tid thread s s
unchanged-Frame c tid s thread h = record {
  keys = λ k t ne r. ap (λ (x : Value). get k (metadata_of x)) (found-inj (sym r ∙ h));
  others = λ other ne. refl;
}

module _ {S : Type 0} (c : Client S) (merging : IsMerging c) (tid : String) (s : S) (thread : Value)
    (h : c.fetch tid s ≡ found thread) where
  -- A list of findings that was written is read back, and nothing else has changed.
  pub written_findings :
      (fs : List Fields) (s' : S)
      → All HasId fs
      → c.write tid (field "findings" (findings_value fs) end) s ≡ done s'
      → (list_findings c tid s' ≡ (ok fs, s')) × Frame c tid thread s s'
  written_findings fs s' ids w =
      let v = findings_value fs in
      let after = merging.merged tid (field "findings" v end) s s' thread h w in
      let thread' = after.0 in
      let md : metadata_of thread' ≡ put "findings" v (metadata_of thread) =
        after.2 ∙ update-findings v (metadata_of thread) in
      let back : findings_of thread' ≡ fs =
        ap (λ (d : Fields). coerce_findings_list (get "findings" d)) md
        ∙ findings-put fs (metadata_of thread) ids in
      (
        list_findings-found c tid s' thread' after.1 ∙ ap (λ (l : List Fields). (ok l, s')) back,
        record {
          keys = λ k t ne r.
              ap (λ (x : Value). get k (metadata_of x)) (found-inj (sym r ∙ after.1))
              ∙ ap (get k) md
              ∙ get-put_other "findings" k v (metadata_of thread) ne;
          others = λ other ne. merging.others tid other (field "findings" v end) s s' ne w;
        },
      )
