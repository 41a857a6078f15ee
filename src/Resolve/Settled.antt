-- ===== src/Resolve/Settled.antt =====
-- The finding behind a resolution, as the store holds it.
use loupfeed_agents.Common.{
  ℕ, String, ◌≡◌, refl, sym, ap, subst, ◌∙◌, Bool, false, Option, none, some, List, null, str_eq,
  arith, Bool-cases, inl, inr,
}
use loupfeed_agents.Json.{Value, str, Fields, get, put, has, update, get-put}
use loupfeed_agents.Findings.Client.{Client, IsMerging}
use loupfeed_agents.Findings.Mutate.{Result, ok}
use loupfeed_agents.Findings.Update.{
  fields_edit, surface_edit, sync_legacy_surface_fields, put_if, update_finding_fields,
  update_finding_surface,
}
use loupfeed_agents.Findings.Thread.{get_finding}
use loupfeed_agents.Findings.Found.{then_run-ok, mutate-Found, edited}
use loupfeed_agents.Findings.Operations.{fields_edit-IsEdit, surface_edit-IsEdit, get-put_if}
use loupfeed_agents.Reconcile.Sync.{str_items}
use loupfeed_agents.Resolve.Loop.{Loop}
use loupfeed_agents.Resolve.GitHub.{GitHub}
use loupfeed_agents.Resolve.Tool.{
  Resolution, resolved, resolution_updates, surface_updates, record_resolution,
}

-- A finding with both writes of a resolution.
abbrev pub settled : String → String → String → List String → Loop → Fields → Fields
settled fid status note ids l f =
    (surface_edit fid (surface_updates ids l)
      (fields_edit (resolution_updates status note ids l) f).0).0

resolution_updates-id :
    (status note : String) (ids : List String) (l : Loop)
    → has "id" (resolution_updates status note ids l) ≡ false
unfolding resolution_updates put_if put has
resolution_updates-id status note ids l = elim (Bool-cases (null l.posted)) [
  | inl e ↦ rw e refl
  | inr e ↦ rw e refl
]

pub edited-some :
    (edit : Fields → Fields × Bool) (o : Option Fields) (f : Fields)
    → some f ≡ edited edit o
    → (g : Fields) × (o ≡ some g) × (f ≡ (edit g).0)
edited-some edit none f h = absurd (cc h)
edited-some edit (some g) f h = (g, refl, ground (arith, h))

-- two edits, one behind the other
twice :
    (e1 e2 : Fields → Fields × Bool) (o a p b : Option Fields) (f' : Fields)
    → a ≡ edited e1 o
    → p ≡ a
    → b ≡ edited e2 p
    → b ≡ some f'
    → (f : Fields) × (f' ≡ (e2 (e1 f).0).0)
twice e1 e2 o a p b f' ha hp hb h =
    let second = edited-some e2 p f' (sym h ∙ hb) in
    let first = edited-some e1 o second.0 (sym second.1 ∙ hp ∙ ha) in
    (first.0, second.2 ∙ ap (λ (g : Fields). (e2 g).0) first.2)

read-inj :
    {S : Type 0} (a b : Option Fields) (s t : S)
    → ◌≡◌ {A = Result (Option Fields) × S} (ok a, s) (ok b, t)
    → (a ≡ b) × (s ≡ t)
read-inj a b s t h = ground (arith, h)

resolved-inj :
    {S : Type 0} (a b : Option Fields) (m n : ℕ) (s t : S)
    → ◌≡◌ {A = Result Resolution × S} (ok (resolved a m), s) (ok (resolved b n), t)
    → (a ≡ b) × (m ≡ n) × (s ≡ t)
resolved-inj a b m n s t h = ground (arith, h)

module _ {S : Type 0} (c : Client S) (tid : String) (merging : IsMerging c) (gh : GitHub S)
    (json_loads : String → Option Value) where
  pub update_fields-Found :
      (fid : String) (updates : Fields) (r : Option Fields) (s s' : S)
      → has "id" updates ≡ false
      → update_finding_fields c tid fid updates s ≡ (ok r, s')
      → (o : Option Fields) × (get_finding c tid fid s ≡ (ok o, s))
        × (r ≡ edited (fields_edit updates) o)
        × (get_finding c tid fid s' ≡ (ok r, s'))
  unfolding update_finding_fields
  update_fields-Found fid updates r s s' id run =
      mutate-Found c tid merging fid (fields_edit updates) (fields_edit-IsEdit updates id) r s s'
        run

  pub update_surface-Found :
      (fid : String) (updates : Fields) (r : Option Fields) (s s' : S)
      → update_finding_surface c tid fid updates s ≡ (ok r, s')
      → (o : Option Fields) × (get_finding c tid fid s ≡ (ok o, s))
        × (r ≡ edited (surface_edit fid updates) o)
        × (get_finding c tid fid s' ≡ (ok r, s'))
  unfolding update_finding_surface
  update_surface-Found fid updates r s s' run =
      mutate-Found c tid merging fid (surface_edit fid updates) (surface_edit-IsEdit fid updates) r
        s s' run

  pub record_resolution-settled :
      (fid status note : String) (ids : List String) (l : Loop) (s s' : S) (o : Option Fields)
      (n : ℕ)
      → record_resolution c tid gh json_loads fid status note ids l s ≡ (ok (resolved o n), s')
      → (get_finding c tid fid s' ≡ (ok o, s'))
        × (n ≡ l.count)
        × ((f' : Fields) → o ≡ some f' → (f : Fields) × (f' ≡ settled fid status note ids l f))
  unfolding record_resolution
  record_resolution-settled fid status note ids l s s' o n run =
      let updates = resolution_updates status note ids l in
      let a = then_run-ok (update_finding_fields c tid fid updates s) _ (resolved o n) s' run in
      let b =
        then_run-ok (update_finding_surface c tid fid (surface_updates ids l) a.1) _ (resolved o n)
          s' a.3 in
      let d = then_run-ok (get_finding c tid fid b.1) _ (resolved o n) s' b.3 in
      let fields =
        update_fields-Found fid updates a.0 s a.1 (resolution_updates-id status note ids l) a.2 in
      let surface = update_surface-Found fid (surface_updates ids l) b.0 a.1 b.1 b.2 in
      let end = resolved-inj d.0 o l.count n d.1 s' d.3 in
      let same = read-inj b.0 d.0 b.1 d.1 (sym surface.3 ∙ d.2) in
      let between = read-inj surface.0 a.0 a.1 a.1 (sym surface.1 ∙ fields.3) in
      (
        subst (λ (t : S). get_finding c tid fid t ≡ (ok o, t)) (same.1 ∙ end.2)
            (surface.3 ∙ ap (λ (x : Option Fields). (ok x, b.1)) (same.0 ∙ end.0)),
        sym end.1,
        λ f' is.
            twice (fields_edit updates) (surface_edit fid (surface_updates ids l)) fields.0 a.0
              surface.0 b.0 f' fields.2 between.0 surface.2 (same.0 ∙ end.0 ∙ is),
      )

-- The keys that a surface update leaves alone.
get-surface_edit :
    (k fid : String) (u f : Fields)
    → str_eq "surface" k ≡ false
    → str_eq "github_thread_resolved" k ≡ false
    → str_eq "github_review_thread_id" k ≡ false
    → str_eq "github_review_comment_id" k ≡ false
    → str_eq "github_review_id" k ≡ false
    → get k (surface_edit fid u f).0 ≡ get k f
unfolding surface_edit sync_legacy_surface_fields
get-surface_edit k fid u f h1 h2 h3 h4 h5 = simp (get-put_if, get-put, h1, h2, h3, h4, h5)

status-resolution_updates :
    (status note : String) (ids : List String) (l : Loop) (f : Fields)
    → (get "status" (update f (resolution_updates status note ids l)) ≡ str status)
      × (get "resolution_note" (update f (resolution_updates status note ids l)) ≡ str note)
      × (get "github_resolved_thread_ids" (update f (resolution_updates status note ids l))
          ≡ str_items l.resolved)
unfolding resolution_updates put_if put update
status-resolution_updates status note ids l f = elim (Bool-cases (null l.posted)) [
  | inl e ↦ rw e (simp get-put, simp get-put, simp get-put)
  | inr e ↦ rw e (simp get-put, simp get-put, simp get-put)
]

-- What a settled finding says.
pub settled_lem :
    (fid status note : String) (ids : List String) (l : Loop) (f : Fields)
    → (get "status" (settled fid status note ids l f) ≡ str status)
      × (get "resolution_note" (settled fid status note ids l f) ≡ str note)
      × (get "github_resolved_thread_ids" (settled fid status note ids l f) ≡ str_items l.resolved)
unfolding fields_edit
settled_lem fid status note ids l f =
    let u = status-resolution_updates status note ids l f in
    let g = update f (resolution_updates status note ids l) in
    (
      get-surface_edit "status" fid (surface_updates ids l) g refl refl refl refl refl ∙ u.0,
      get-surface_edit "resolution_note" fid (surface_updates ids l) g refl refl refl refl refl
          ∙ u.1,
      get-surface_edit "github_resolved_thread_ids" fid (surface_updates ids l) g refl refl refl
            refl refl
          ∙ u.2,
    )
