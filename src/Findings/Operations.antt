-- ===== src/Findings/Operations.antt =====
-- What `append_finding`, `update_finding_fields`, `update_finding_surface` and
-- `append_finding_interaction` leave in the store.
use loupfeed_agents.Common.{
  String, ◌≡◌, refl, ap, ◌∙◌, Bool, true, false, Option, none, some, List, [], ◌∷◌, ◌++◌, arith,
  All-append, Bool-cases, inl, inr, any, ◌&&◌, str_eq, eq_iff, if◌then◌else◌,
}
use loupfeed_agents.Json.{
  Value, int, bool, str, null, pos, negsuc, num_of, eq_ℤ, same_num, as_dict, Fields, field, end,
  get, put, update, has, dict, list, items_of, is_int, as_list, get-put, get-put_self, as_list-list,
}
use loupfeed_agents.Findings.Coerce.{HasId, coerce_findings_list-HasId}
use loupfeed_agents.Findings.Client.{Client, IsMerging, found, metadata_of}
use loupfeed_agents.Findings.Mutate.{ok, list_findings}
use loupfeed_agents.Findings.Stored.{
  findings_of, Frame, written_findings, mutate_changed, get-put_other,
}
use loupfeed_agents.Findings.Edits.{Updated, IsEdit, mutate-Updated}
use loupfeed_agents.Findings.Update.{
  append_mutator, fields_edit, surface_edit, interaction_edit, sync_legacy_surface_fields,
  append_finding, update_finding_fields, update_finding_surface, append_finding_interaction, put_if,
  coerce_surface, interactions_of, is_comment,
}

pub get-update_other : (k : String) (u d : Fields) → has k u ≡ false → get k (update d u) ≡ get k d
unfolding has update
get-update_other k end d h = refl
get-update_other k (field j v u) d h =
    get-update_other k u (put j v d) (ground (arith, h))
    ∙ get-put_other j k v d (λ e. ground (arith, h, e, eq_iff j k))

pub fields_edit-IsEdit : (u : Fields) → has "id" u ≡ false → IsEdit (fields_edit u)
unfolding fields_edit
fields_edit-IsEdit u h = record {
  ids = λ f. get-update_other "id" u f h;
  same = λ f e. absurd (cc e);
}

pub get-put_if :
    (b : Bool) (k j : String) (v : Value) (d : Fields)
    → get j (put_if b k v d) ≡ (if str_eq k j && b then v else get j d)
unfolding put_if
get-put_if true k j v d = get-put k j v d ∙ ground arith
get-put_if false k j v d = ground arith

sync_legacy_surface_fields-id :
    (f surface : Fields) → get "id" (sync_legacy_surface_fields f surface) ≡ get "id" f
unfolding sync_legacy_surface_fields
sync_legacy_surface_fields-id f surface = simp (get-put_if)

pub surface_edit-IsEdit : (fid : String) (u : Fields) → IsEdit (surface_edit fid u)
unfolding surface_edit
surface_edit-IsEdit fid u = record {
  ids = λ f.
      let surface = update (coerce_surface f fid) u in
      sync_legacy_surface_fields-id (put "surface" (dict surface) f) surface
      ∙ get-put "surface" "id" (dict surface) f;
  same = λ f e. absurd (cc e);
}

-- The comment of the interaction is already on the finding.
interaction_known : Fields → Fields → Bool
unfolding interactions_of is_comment
interaction_known i f =
    is_int (get "github_comment_id" i)
    && any (is_comment (get "github_comment_id" i)) (interactions_of f)

interaction_edit_known :
    (i f : Fields) → interaction_known i f ≡ true → interaction_edit i f ≡ (f, false)
unfolding interaction_edit interaction_known
interaction_edit_known i f h = rw h

with_interaction : Fields → Fields → Fields
with_interaction i f = put "interactions" (list (items_of (interactions_of f ++ dict i ∷ []))) f

interaction_edit_new :
    (i f : Fields)
    → interaction_known i f ≡ false
    → interaction_edit i f ≡ (with_interaction i f, true)
unfolding interaction_edit interaction_known with_interaction
interaction_edit_new i f h = rw h

pub interaction_edit-IsEdit : (i : Fields) → IsEdit (interaction_edit i)
interaction_edit-IsEdit i = record {
  ids = λ f. elim (Bool-cases (interaction_known i f)) [
    | inl e ↦ ap (λ (p : Fields × Bool). get "id" p.0) (interaction_edit_known i f e)
    | inr e ↦ rw (interaction_edit_new i f e) (unfold with_interaction in get-put _ _ _ f)
  ];
  same = λ f e. elim (Bool-cases (interaction_known i f)) [
    | inl k ↦ ap (λ (p : Fields × Bool). p.0) (interaction_edit_known i f k)
    | inr k ↦ absurd (cc (e, interaction_edit_new i f k))
  ];
}

interactions_of-with_interaction :
    (i f : Fields) → interactions_of (with_interaction i f) ≡ interactions_of f ++ dict i ∷ []
unfolding interactions_of with_interaction
interactions_of-with_interaction i f =
    let known = interactions_of f ++ dict i ∷ [] in
    ap (λ (v : Value). elim (as_list v) [ none ↦ [] | some l ↦ l ])
      (get-put_self "interactions" (list (items_of known)) f)
    ∙ ap (λ (o : Option (List Value)). elim o [ none ↦ [] | some l ↦ l ]) (as_list-list known)

same_num_refl : (v : Value) → is_int v ≡ true → same_num v v ≡ true
unfolding same_num is_int num_of eq_ℤ
same_num_refl (int (pos n)) h = ground arith
same_num_refl (int (negsuc n)) h = ground arith
same_num_refl (bool true) h = refl
same_num_refl (bool false) h = refl
same_num_refl null h = absurd (cc h)
same_num_refl (str s) h = absurd (cc h)
same_num_refl (list l) h = absurd (cc h)
same_num_refl (dict d) h = absurd (cc h)

any-last :
    {A : Type 0} (p : A → Bool) (xs : List A) (y : A) → p y ≡ true → any p (xs ++ y ∷ []) ≡ true
any-last p [] y h = rw h
any-last p (x ∷ xs) y h = rw (any-last p xs y h) (ground arith)

interaction_known_with :
    (i f : Fields)
    → is_int (get "github_comment_id" i) ≡ true
    → interaction_known i (with_interaction i f) ≡ true
unfolding interaction_known
interaction_known_with i f h =
    rw (h, interactions_of-with_interaction i f)
      (any-last (is_comment (get "github_comment_id" i)) (interactions_of f) (dict i)
        (unfold is_comment in unfold as_dict in same_num_refl (get "github_comment_id" i) h))

-- An interaction with a comment is on the finding once it was appended.
pub interaction_edit_again :
    (i f : Fields)
    → is_int (get "github_comment_id" i) ≡ true
    → interaction_edit i (interaction_edit i f).0 ≡ ((interaction_edit i f).0, false)
interaction_edit_again i f h = elim (Bool-cases (interaction_known i f)) [
  | inl k ↦ rw (interaction_edit_known i f k) (interaction_edit_known i f k)
  | inr k ↦
      rw (interaction_edit_new i f k)
        (interaction_edit_known i (with_interaction i f) (interaction_known_with i f h))
]

module _ {S : Type 0} (c : Client S) (merging : IsMerging c) (tid : String) (s : S) (thread : Value)
    (h : c.fetch tid s ≡ found thread) where
  -- With a client that merges, on a thread that can be read: an append of a finding with an id that
  -- returns has stored it behind those that were there, and changed nothing else.
  pub append_finding-Frame :
      (finding r : Fields) (s' : S)
      → HasId finding
      → append_finding c tid finding s ≡ (ok r, s')
      → (r ≡ finding)
        × (list_findings c tid s' ≡ (ok (findings_of thread ++ finding ∷ []), s'))
        × Frame c tid thread s s'
  unfolding append_finding append_mutator
  append_finding-Frame finding r s' id run =
      let w = mutate_changed c tid s thread h (append_mutator finding) r s' refl run in
      let ids =
        All-append HasId (findings_of thread) (finding ∷ [])
          (coerce_findings_list-HasId (get "findings" (metadata_of thread))) (id, tt) in
      let stored =
        written_findings c merging tid s thread h (findings_of thread ++ finding ∷ []) s' ids w.0 in
      (w.1, stored.0, stored.1)

  -- With a client that merges, on a thread that can be read: a field update that leaves the id alone
  -- and returns a finding has stored the updated finding at its place, and changed nothing else;
  -- one that returns none has found no finding with the id and written nothing.
  pub update_finding_fields-Updated :
      (fid : String) (updates : Fields) (r : Option Fields) (s' : S)
      → has "id" updates ≡ false
      → update_finding_fields c tid fid updates s ≡ (ok r, s')
      → Updated c tid thread s s' fid (fields_edit updates) r
  unfolding update_finding_fields
  update_finding_fields-Updated fid updates r s' no_id run =
      mutate-Updated fid (fields_edit updates) (fields_edit-IsEdit updates no_id) c merging tid s
        thread h r s' run

  pub update_finding_surface-Updated :
      (fid : String) (updates : Fields) (r : Option Fields) (s' : S)
      → update_finding_surface c tid fid updates s ≡ (ok r, s')
      → Updated c tid thread s s' fid (surface_edit fid updates) r
  unfolding update_finding_surface
  update_finding_surface-Updated fid updates r s' run =
      mutate-Updated fid (surface_edit fid updates) (surface_edit-IsEdit fid updates) c merging tid
        s thread h r s' run

  pub append_finding_interaction-Updated :
      (fid : String) (i : Fields) (r : Option Fields) (s' : S)
      → append_finding_interaction c tid fid i s ≡ (ok r, s')
      → Updated c tid thread s s' fid (interaction_edit i) r
  unfolding append_finding_interaction
  append_finding_interaction-Updated fid i r s' run =
      mutate-Updated fid (interaction_edit i) (interaction_edit-IsEdit i) c merging tid s thread h r
        s' run
