-- ===== src/Findings/Edits.antt =====
-- What the edits of one finding leave in the store: `update_finding_fields`,
-- `update_finding_surface` and `append_finding_interaction`.
use loupfeed_agents.Common.{
  String, ◌≡◌, refl, sym, ap, subst, ◌∙◌, Bool, false, Option, none, some, List, [], ◌∷◌, arith,
  Bool-cases, inl, inr, any,
}
use loupfeed_agents.Json.{Value, Fields, get, is_str, eq_text}
use loupfeed_agents.Findings.Coerce.{coerce_findings_list-HasId}
use loupfeed_agents.Findings.Client.{Client, IsMerging, found, metadata_of}
use loupfeed_agents.Findings.Mutate.{
  Result, ok, Mutated, list_findings, mutate_findings, edit_first,
}
use loupfeed_agents.Findings.Stored.{
  unchanged-Frame, findings_of, Frame, EditedAt, edit_first_hit, edit_first_miss, edit_first-none,
  edit_first-EditedAt, edit_first-HasId, written_findings, mutate_changed, mutate_unchanged,
  list_findings-found,
}

-- What the call leaves behind, by what it returned.
abbrev pub Updated :
    {S : Type 0}
    → Client S
    → String
    → Value
    → S
    → S
    → String
    → (Fields → Fields × Bool)
    → Option Fields
    → Type 0
Updated c tid thread s s' fid edit none =
    (any (λ f. eq_text (get "id" f) fid) (findings_of thread) ≡ false) × (s' ≡ s)
Updated c tid thread s s' fid edit (some f') =
    (fs' : List Fields) × EditedAt fid edit (findings_of thread) fs' f'
    × (list_findings c tid s' ≡ (ok fs', s'))
    × Frame c tid thread s s'

-- An edit keeps the id of a finding, and where it says that nothing changed, nothing did.
pub record IsEdit (edit : Fields → Fields × Bool) : Type 0 where
  pub ids : (f : Fields) → get "id" (edit f).0 ≡ get "id" f
  pub same : (f : Fields) → (edit f).1 ≡ false → (edit f).0 ≡ f

module _ (fid : String) (edit : Fields → Fields × Bool) (is : IsEdit edit) where
  edit_first_unchanged :
      (fs : List Fields)
      → (edit_first fid edit fs).changed ≡ false
      → (edit_first fid edit fs).findings ≡ fs
  edit_first_unchanged [] h = unfold edit_first in refl
  edit_first_unchanged (f ∷ fs) h = elim (Bool-cases (eq_text (get "id" f) fid)) [
    | inl hit ↦
        let e = edit_first_hit fid edit f fs hit in
        ap (λ (m : Mutated (Option Fields)). m.findings) e
        ∙ ap (λ (g : Fields). g ∷ fs)
            (is.same f (sym (ap (λ (m : Mutated (Option Fields)). m.changed) e) ∙ h))
    | inr miss ↦
        let e = edit_first_miss fid edit f fs miss in
        ap (λ (m : Mutated (Option Fields)). m.findings) e
        ∙ ap (λ (l : List Fields). f ∷ l)
            (edit_first_unchanged fs (sym (ap (λ (m : Mutated (Option Fields)). m.changed) e) ∙ h))
  ]

  module _ {S : Type 0} (c : Client S) (merging : IsMerging c) (tid : String) (s : S)
      (thread : Value) (h : c.fetch tid s ≡ found thread) where
    abbrev ReadBack : S → Type 0
    ReadBack s' =
        (list_findings c tid s' ≡ (ok (edit_first fid edit (findings_of thread)).findings, s'))
        × Frame c tid thread s s'

    read_unchanged :
        (edit_first fid edit (findings_of thread)).changed ≡ false → (s' : S) → s ≡ s' → ReadBack s'
    read_unchanged e s' same = subst ReadBack same (
      list_findings-found c tid s thread h
          ∙ ap (λ (l : List Fields). (ok l, s)) (sym (edit_first_unchanged (findings_of thread) e)),
      unchanged-Frame c tid s thread h,
    )

    mutate-ReadBack :
        (r : Option Fields) (s' : S)
        → mutate_findings c tid (edit_first fid edit) s ≡ (ok r, s')
        → (r ≡ (edit_first fid edit (findings_of thread)).captured)
          × ReadBack s'
          × ((edit_first fid edit (findings_of thread)).changed ≡ false → s' ≡ s)
    mutate-ReadBack r s' run =
        elim (Bool-cases (edit_first fid edit (findings_of thread)).changed) [
          | inl e ↦
              let w = mutate_changed c tid s thread h (edit_first fid edit) r s' e run in
              (
                w.1,
                written_findings c merging tid s thread h
                    (edit_first fid edit (findings_of thread)).findings s'
                    (edit_first-HasId fid edit (λ f k. ap is_str (is.ids f) ∙ k)
                      (findings_of thread)
                      (coerce_findings_list-HasId (get "findings" (metadata_of thread))))
                    w.0,
                λ e'. cc (e, e'),
              )
          | inr e ↦
              let u = sym run ∙ mutate_unchanged c tid s thread h (edit_first fid edit) e in
              (
                ground (arith, u),
                read_unchanged e s' (sym (ap (λ (p : Result (Option Fields) × S). p.1) u)),
                λ e'. ap (λ (p : Result (Option Fields) × S). p.1) u,
              )
        ]

    pub mutate-Updated :
        (r : Option Fields) (s' : S)
        → mutate_findings c tid (edit_first fid edit) s ≡ (ok r, s')
        → Updated c tid thread s s' fid edit r
    mutate-Updated none s' run =
        let facts = mutate-ReadBack none s' run in
        let missed = edit_first-none fid edit (findings_of thread) (sym facts.0) in
        (missed.0, facts.2 missed.1)
    mutate-Updated (some f') s' run =
        let facts = mutate-ReadBack (some f') s' run in
        (
          _,
          edit_first-EditedAt fid edit (findings_of thread) f' (sym facts.0),
          facts.1.0,
          facts.1.1,
        )
