-- ===== src/Findings/Found.antt =====
-- What `get_finding` returns around an edit of one finding, whether the thread can be read or not.
use loupfeed_agents.Common.{
  String, ◌≡◌, refl, sym, ap, subst, ◌∙◌, Bool, true, false, Option, none, some, List, [], ◌∷◌,
  ◌++◌, arith, any,
}
use loupfeed_agents.Json.{Value, Fields, get, eq_text}
use loupfeed_agents.Findings.Client.{Client, IsMerging, Fetch, found, not_found, failed}
use loupfeed_agents.Findings.Mutate.{
  Result, ok, thread_missing, raised, list_findings, mutate_findings, edit_first, then_run, pure,
  read_metadata, get_thread_metadata, store_mutated,
}
use loupfeed_agents.Findings.Coerce.{coerce_findings_list}
use loupfeed_agents.Findings.Stored.{findings_of, list_findings-found}
use loupfeed_agents.Findings.Edits.{Updated, IsEdit, mutate-Updated}
use loupfeed_agents.Findings.Thread.{first_with, get_finding}

-- A block that returned ran its first call, and then the rest.
pub then_run-ok :
    {S A B : Type 0} (m : Result A × S) (f : A → S → Result B × S) (b : B) (s' : S)
    → then_run f m ≡ (ok b, s')
    → (a : A) × (t : S) × (m ≡ (ok a, t)) × (f a t ≡ (ok b, s'))
then_run-ok (ok a, t) f b s' h = (a, t, refl, h)
then_run-ok (thread_missing i, t) f b s' h = absurd (cc h)
then_run-ok (raised, t) f b s' h = absurd (cc h)

first_with-skip :
    (fid : String) (before fs : List Fields)
    → any (λ f. eq_text (get "id" f) fid) before ≡ false
    → first_with fid (before ++ fs) ≡ first_with fid fs
unfolding first_with
first_with-skip fid [] fs h = refl
first_with-skip fid (f ∷ before) fs h = ground (arith, h, first_with-skip fid before fs)

first_with-hit :
    (fid : String) (f : Fields) (fs : List Fields)
    → eq_text (get "id" f) fid ≡ true
    → first_with fid (f ∷ fs) ≡ some f
unfolding first_with
first_with-hit fid f fs h = rw h

first_with-none :
    (fid : String) (fs : List Fields)
    → any (λ f. eq_text (get "id" f) fid) fs ≡ false
    → first_with fid fs ≡ none
unfolding first_with
first_with-none fid [] h = refl
first_with-none fid (f ∷ fs) h = ground (arith, h, first_with-none fid fs)

abbrev pub edited : (Fields → Fields × Bool) → Option Fields → Option Fields
edited edit none = none
edited edit (some f) = some (edit f).0

module _ {S : Type 0} (c : Client S) (tid : String) where
  pub get_finding-list_findings :
      (fid : String) (s : S) (fs : List Fields)
      → list_findings c tid s ≡ (ok fs, s)
      → get_finding c tid fid s ≡ (ok (first_with fid fs), s)
  unfolding get_finding
  get_finding-list_findings fid s fs h = rw h

  -- a thread that cannot be read for another reason shows no findings
  pub list_findings-failed : (s : S) → c.fetch tid s ≡ failed → list_findings c tid s ≡ (ok [], s)
  unfolding list_findings get_thread_metadata read_metadata coerce_findings_list get
  list_findings-failed s e =
      ap
        (λ (o : Fetch).
          then_run (λ (md : Fields). pure (coerce_findings_list (get "findings" md)))
            (read_metadata tid s o))
        e

  list_findings-not_found :
      (s : S) → c.fetch tid s ≡ not_found → list_findings c tid s ≡ (thread_missing tid, s)
  unfolding list_findings get_thread_metadata read_metadata
  list_findings-not_found s e =
      ap
        (λ (o : Fetch).
          then_run (λ (md : Fields). pure (coerce_findings_list (get "findings" md)))
            (read_metadata tid s o))
        e

  same_fetch :
      (fid : String) (o : Fetch) (r : Option Fields) (s t : S)
      → c.fetch tid s ≡ o
      → c.fetch tid t ≡ o
      → get_finding c tid fid s ≡ (ok r, s)
      → get_finding c tid fid t ≡ (ok r, t)
  same_fetch fid (found thread) r s t e k h =
      let was =
        get_finding-list_findings fid s (findings_of thread)
          (list_findings-found c tid s thread e) in
      let r_is : first_with fid (findings_of thread) ≡ r = ground (arith, sym was ∙ h) in
      get_finding-list_findings fid t (findings_of thread) (list_findings-found c tid t thread k)
      ∙ ap (λ (o : Option Fields). (ok o, t)) r_is
  same_fetch fid not_found r s t e k h = absurd (cc (h, missed fid s (list_findings-not_found s e)))
    where
      missed :
          (fid : String) (s : S)
          → list_findings c tid s ≡ (thread_missing tid, s)
          → get_finding c tid fid s ≡ (thread_missing tid, s)
      missed fid s h = unfold get_finding in rw h refl
  same_fetch fid failed r s t e k h =
      let was = get_finding-list_findings fid s [] (list_findings-failed s e) in
      let r_is : first_with fid [] ≡ r = ground (arith, sym was ∙ h) in
      get_finding-list_findings fid t [] (list_findings-failed t k)
      ∙ ap (λ (o : Option Fields). (ok o, t)) r_is

  -- A read of a finding depends on what the client reads of its thread alone.
  pub get_finding-fetch :
      (fid : String) (r : Option Fields) (s t : S)
      → c.fetch tid t ≡ c.fetch tid s
      → get_finding c tid fid s ≡ (ok r, s)
      → get_finding c tid fid t ≡ (ok r, t)
  get_finding-fetch fid r s t e h = same_fetch fid (c.fetch tid s) r s t refl e h

  module _ (merging : IsMerging c) (fid : String) (edit : Fields → Fields × Bool)
      (is : IsEdit edit) where
    -- The finding before the edit, what the edit returned, and the finding behind it.
    abbrev pub Found : S → Option Fields → S → Type 0
    Found s r s' =
        (o : Option Fields) × (get_finding c tid fid s ≡ (ok o, s))
        × (r ≡ edited edit o)
        × (get_finding c tid fid s' ≡ (ok r, s'))

    Updated-Found :
        (s : S) (thread : Value) (r : Option Fields) (s' : S)
        → c.fetch tid s ≡ found thread
        → Updated c tid thread s s' fid edit r
        → Found s r s'
    Updated-Found s thread none s' h u =
        let seen =
          get_finding-list_findings fid s (findings_of thread)
            (list_findings-found c tid s thread h)
          ∙ ap (λ (o : Option Fields). (ok o, s)) (first_with-none fid (findings_of thread) u.0) in
        (none, seen, refl, subst (λ (t : S). get_finding c tid fid t ≡ (ok none, t)) (sym u.1) seen)
    Updated-Found s thread (some f') s' h u =
        let e = u.1 in
        let was : first_with fid (findings_of thread) ≡ some e.target =
          ap (first_with fid) e.split
          ∙ first_with-skip fid e.before (e.target ∷ e.behind) e.first
          ∙ first_with-hit fid e.target e.behind e.hit in
        let now : first_with fid u.0 ≡ some (edit e.target).0 =
          ap (first_with fid) e.edited
          ∙ first_with-skip fid e.before ((edit e.target).0 ∷ e.behind) e.first
          ∙ first_with-hit fid (edit e.target).0 e.behind
              (ap (λ (v : Value). eq_text v fid) (is.ids e.target) ∙ e.hit) in
        (
          some e.target,
          get_finding-list_findings fid s (findings_of thread)
                (list_findings-found c tid s thread h)
              ∙ ap (λ (o : Option Fields). (ok o, s)) was,
          ap some e.returned,
          get_finding-list_findings fid s' u.0 u.2
              ∙ ap (λ (o : Option Fields). (ok o, s')) (now ∙ ap some (sym e.returned)),
        )

    mutate-listed :
        (s : S) (m : Result (List Fields) × S)
        → list_findings c tid s ≡ m
        → mutate_findings c tid (edit_first fid edit) s
          ≡ then_run (λ (fs : List Fields). store_mutated c tid (edit_first fid edit fs)) m
    unfolding mutate_findings
    mutate-listed s m e =
        ap (then_run (λ (fs : List Fields). store_mutated c tid (edit_first fid edit fs))) e

    by_fetch :
        (o : Fetch) (r : Option Fields) (s s' : S)
        → c.fetch tid s ≡ o
        → mutate_findings c tid (edit_first fid edit) s ≡ (ok r, s')
        → Found s r s'
    by_fetch (found thread) r s s' e run =
        Updated-Found s thread r s' e (mutate-Updated fid edit is c merging tid s thread e r s' run)
    by_fetch not_found r s s' e run =
        absurd (cc (run, mutate-listed s (thread_missing tid, s) (list_findings-not_found s e)))
    by_fetch failed r s s' e run =
        let empty = sym run ∙ mutate-listed s (ok [], s) (list_findings-failed s e) ∙ nothing s in
        let seen =
          get_finding-list_findings fid s [] (list_findings-failed s e)
          ∙ ap (λ (o : Option Fields). (ok o, s)) (first_with-none fid [] refl) in
        let none_back : r ≡ none = ground (arith, empty) in
        let same : s' ≡ s = ap (λ (p : Result (Option Fields) × S). p.1) empty in
        subst (λ (t : S). Found s r t) (sym same)
          (subst (λ (q : Option Fields). Found s q s) (sym none_back) (none, seen, refl, seen))
      where
        nothing : (s : S) → store_mutated c tid (edit_first fid edit []) s ≡ (ok none, s)
        nothing s = unfold store_mutated in unfold edit_first in refl

    -- An edit that returns has returned the finding with the id, edited, which the store then holds,
    -- or none where there was none.
    pub mutate-Found :
        (r : Option Fields) (s s' : S)
        → mutate_findings c tid (edit_first fid edit) s ≡ (ok r, s')
        → Found s r s'
    mutate-Found r s s' run = by_fetch (c.fetch tid s) r s s' refl run
