-- ===== src/Tools/Unwritten.antt =====
-- When the tool does not report a finding as recorded: what it has written.
use loupfeed_agents.Common.{
  String, ◌≡◌, refl, sym, ap, subst, ◌∙◌, Bool, true, false, Option, none, some, List, [], ◌∷◌,
  ◌++◌, arith, ◌⊎◌, inl, inr,
}
use loupfeed_agents.Json.{Fields, field, end}
use loupfeed_agents.Findings.Coerce.{findings_value}
use loupfeed_agents.Findings.Client.{Client, broken, Write-cases}
use loupfeed_agents.Findings.Titles.{clip_suggestion}
use loupfeed_agents.Findings.Mutate.{
  Result, ok, thread_missing, raised, list_findings, then_run, pure, store_mutated,
  replace_findings, mutate_findings, get_thread_metadata,
}
use loupfeed_agents.Findings.Create.{new_finding, resolved_id}
use loupfeed_agents.Findings.Thread.{resolve_review_head_sha}
use loupfeed_agents.Findings.Update.{append_finding, append_mutator}
use loupfeed_agents.Tools.Ranges.{AddArgs, rejection}
use loupfeed_agents.Tools.AddFinding.{
  RunConfig, Added, recorded, in_diff, finding_args, record_finding, caught, add_finding, judged,
}
use loupfeed_agents.Tools.Recorded.{resolve_review_head_sha_unchanged, read_state, pure_state}

abbrev pub is_ok : {A : Type 0} → Result A → Bool
is_ok (ok a) = true
is_ok _ = false

-- the tool reports the finding as recorded
abbrev pub is_recorded : Result Added → Bool
is_recorded (ok (recorded id dropped)) = true
is_recorded _ = false

module _ {S : Type 0} (c : Client S) (tid : String) where
  -- the write of the stored findings with one more behind them has raised, with a state behind it
  abbrev pub Broken : Fields → S → S → Type 0
  Broken f s s' =
      (old : List Fields) × (list_findings c tid s ≡ (ok old, s))
      × (c.write tid (field "findings" (findings_value (old ++ f ∷ [])) end) s ≡ broken s')

  store_mutated_raised :
      (f : Fields) (fs : List Fields) (s : S)
      → is_ok (store_mutated c tid (append_mutator f fs) s).0 ≡ false
      → ((store_mutated c tid (append_mutator f fs) s).1 ≡ s)
        ⊎ (((store_mutated c tid (append_mutator f fs) s).0 ≡ raised)
            × (c.write tid (field "findings" (findings_value (fs ++ f ∷ [])) end) s
                ≡ broken (store_mutated c tid (append_mutator f fs) s).1))
  unfolding store_mutated append_mutator replace_findings
  store_mutated_raised f fs s h =
      elim (Write-cases (c.write tid (field "findings" (findings_value (fs ++ f ∷ [])) end) s)) [
        | inl w ↦ absurd (ground (arith, h, w.1))
        | inr (inl e) ↦ inl (rw (e, store_mutated, append_mutator, replace_findings) refl)
        | inr (inr w) ↦ inr (rw (w.1, store_mutated, append_mutator, replace_findings) (refl, refl))
      ]

  -- how the append of a finding ends when it does not return
  abbrev Torn : {A : Type 0} → Fields → S → Result A × S → Type 0
  Torn f s m = (m.1 ≡ s) ⊎ ((m.0 ≡ raised) × Broken f s m.1)

  list_findings_unchanged : (s : S) → (list_findings c tid s).1 ≡ s
  unfolding list_findings get_thread_metadata
  list_findings_unchanged s =
      pure_state c tid _ (get_thread_metadata c tid s) ∙ read_state c tid s (c.fetch tid s)

  append_raised :
      (f : Fields) (s : S) (m : Result (List Fields) × S)
      → list_findings c tid s ≡ m
      → m.1 ≡ s
      → is_ok (then_run (λ (fs : List Fields). store_mutated c tid (append_mutator f fs)) m).0
        ≡ false
      → Torn f s (then_run (λ (fs : List Fields). store_mutated c tid (append_mutator f fs)) m)
  append_raised f s (thread_missing i, t) e same h = inl same
  append_raised f s (raised, t) e same h = inl same
  append_raised f s (ok fs, t) e same h =
      subst
        (λ (u : S).
          is_ok (store_mutated c tid (append_mutator f fs) u).0 ≡ false
          → Torn f s (store_mutated c tid (append_mutator f fs) u))
        (sym same)
        (λ k. elim (store_mutated_raised f fs s k) [
          | inl kept ↦ inl kept
          | inr r ↦ inr (r.0, (fs, e ∙ ap (λ (u : S). (ok fs, u)) same, r.1))
        ])
        h

  append_finding_raised :
      (f : Fields) (s : S)
      → is_ok (append_finding c tid f s).0 ≡ false
      → Torn f s (append_finding c tid f s)
  unfolding append_finding mutate_findings
  append_finding_raised f s h =
      append_raised f s (list_findings c tid s) refl (list_findings_unchanged s) h

  then_run_recorded :
      {A : Type 0} (f : A → S → Result Added × S) (m : Result A × S)
      → ((x : A) (t : S) → is_ok (f x t).0 ≡ true → is_recorded (f x t).0 ≡ true)
      → is_ok (then_run f m).0 ≡ true
      → is_recorded (then_run f m).0 ≡ true
  then_run_recorded f (ok x, t) k h = k x t h
  then_run_recorded f (thread_missing i, t) k h = absurd (cc h)
  then_run_recorded f (raised, t) k h = absurd (cc h)

  -- the append of the tool, with what it returns
  appended : RunConfig → AddArgs → String → String → S → Result Added × S
  appended cfg a new_id head t =
      then_run
        (λ (f : Fields). pure (
          recorded (resolved_id (finding_args cfg a new_id head)) (clip_suggestion a.suggestion).1))
        (append_finding c tid (new_finding (finding_args cfg a new_id head)) t)

  with_answer_raised :
      {A B : Type 0} (b : B) (f : Fields) (s : S) (m : Result A × S)
      → (is_ok m.0 ≡ false → Torn f s m)
      → is_ok (then_run (λ (x : A). pure b) m).0 ≡ false
      → Torn f s (then_run (λ (x : A). pure b) m)
  with_answer_raised b f s (ok x, u) k h = absurd (cc h)
  with_answer_raised b f s (thread_missing i, u) k h = elim (k refl) [
    | inl same ↦ inl same
    | inr r ↦ absurd (cc r.0)
  ]
  with_answer_raised b f s (raised, u) k h = elim (k refl) [
    | inl same ↦ inl same
    | inr r ↦ inr (refl, r.1)
  ]

  module _ (cfg : RunConfig) (a : AddArgs) (new_id : String) where
    -- the state is as it was, or the write of the tool's finding has raised
    abbrev pub Left : {A : Type 0} → S → Result A × S → Type 0
    Left s m =
        (m.1 ≡ s)
        ⊎ ((m.0 ≡ raised)
            × ((head : String) × Broken (new_finding (finding_args cfg a new_id head)) s m.1))

    appended_raised :
        (head : String) (t : S)
        → is_ok (appended cfg a new_id head t).0 ≡ false
        → Left t (appended cfg a new_id head t)
    unfolding appended
    appended_raised head t h =
        elim (with_answer_raised
          (recorded (resolved_id (finding_args cfg a new_id head)) (clip_suggestion a.suggestion).1)
          (new_finding (finding_args cfg a new_id head)) t
          (append_finding c tid (new_finding (finding_args cfg a new_id head)) t)
          (append_finding_raised (new_finding (finding_args cfg a new_id head)) t) h) [
            | inl same ↦ inl same
            | inr r ↦ inr (r.0, (head, r.1))
          ]

    behind_head_raised :
        (s : S) (m : Result String × S)
        → m.1 ≡ s
        → is_ok (then_run (appended cfg a new_id) m).0 ≡ false
        → Left s (then_run (appended cfg a new_id) m)
    behind_head_raised s (ok head, t) e h =
        subst
          (λ (u : S).
            is_ok (appended cfg a new_id head u).0 ≡ false → Left s (appended cfg a new_id head u))
          (sym e) (appended_raised head s) h
    behind_head_raised s (thread_missing i, t) e h = inl e
    behind_head_raised s (raised, t) e h = inl e

    record_finding_raised :
        (s : S)
        → is_ok (record_finding c tid cfg a new_id s).0 ≡ false
        → Left s (record_finding c tid cfg a new_id s)
    unfolding record_finding appended
    record_finding_raised s h =
        behind_head_raised s (resolve_review_head_sha c tid cfg.configurable s)
          (resolve_review_head_sha_unchanged c tid cfg.configurable s) h

  record_finding_recorded :
      (cfg : RunConfig) (a : AddArgs) (new_id : String) (s : S)
      → is_ok (record_finding c tid cfg a new_id s).0 ≡ true
      → is_recorded (record_finding c tid cfg a new_id s).0 ≡ true
  unfolding record_finding appended
  record_finding_recorded cfg a new_id s h =
      then_run_recorded (appended cfg a new_id) (resolve_review_head_sha c tid cfg.configurable s)
        (λ head t k.
          then_run_recorded
            (λ (f : Fields). pure (
              recorded (resolved_id (finding_args cfg a new_id head))
                (clip_suggestion a.suggestion).1))
            (append_finding c tid (new_finding (finding_args cfg a new_id head)) t) (λ f u e. refl)
            k)
        h

  module _ (cfg : RunConfig) (a : AddArgs) (new_id : String) where
    caught_unwritten :
        (m : Result Added × S) (s : S)
        → (is_ok m.0 ≡ false → Left cfg a new_id s m)
        → (is_ok m.0 ≡ true → is_recorded m.0 ≡ true)
        → is_recorded (caught c tid m).0 ≡ false
        → Left cfg a new_id s (caught c tid m)
    caught_unwritten (ok r, t) s e k h = absurd (cc (k refl, h))
    caught_unwritten (thread_missing i, t) s e k h = elim (e refl) [
      | inl same ↦ inl same
      | inr r ↦ absurd (cc r.0)
    ]
    caught_unwritten (raised, t) s e k h = e refl

    judged_unwritten :
        (o : Option String) (inside : Bool) (s : S) (r : Result Added × S)
        → (is_recorded r.0 ≡ false → Left cfg a new_id s r)
        → is_recorded (judged c tid o inside s r).0 ≡ false
        → Left cfg a new_id s (judged c tid o inside s r)
    unfolding judged
    judged_unwritten (some e) inside s r k h = inl refl
    judged_unwritten none false s r k h = inl refl
    judged_unwritten none true s r k h = k h

    -- Unless the tool reports the finding as recorded, the state is as it was, or the tool has raised
    -- since the write of the finding behind the stored ones has raised, and the state is the one
    -- behind that write.
    pub add_finding_unwritten :
        (s : S)
        → is_recorded (add_finding c tid cfg a new_id s).0 ≡ false
        → Left cfg a new_id s (add_finding c tid cfg a new_id s)
    unfolding add_finding
    add_finding_unwritten s h =
        judged_unwritten (rejection a) (in_diff cfg a) s
          (caught c tid (record_finding c tid cfg a new_id s))
          (caught_unwritten (record_finding c tid cfg a new_id s) s
            (record_finding_raised cfg a new_id s) (record_finding_recorded cfg a new_id s))
          h
