-- ===== src/Tools/Recorded.antt =====
-- What a recorded finding has passed, and what the store holds behind it.
use loupfeed_agents.Common.{
  ℕ, ◌≤◌, String, ◌≡◌, refl, sym, ap, ◌∙◌, Bool, true, false, not, Option, none, some, all, arith,
  nonempty, if◌then◌else◌,
}
use loupfeed_agents.Json.{Fields, get}
use loupfeed_agents.Diff.Parse.{parse_unified_diff}
use loupfeed_agents.Diff.Anchor.{LineSet, lines_between, compute_diff_line_set, is_range_in_diff}
use loupfeed_agents.Diff.Cover.{is_covered, is_range_in_diff-compute_diff_line_set}
use loupfeed_agents.Findings.Client.{Client, Fetch, found, not_found, failed}
use loupfeed_agents.Findings.Mutate.{
  Result, ok, thread_missing, raised, then_run, pure, get_thread_metadata, read_metadata,
}
use loupfeed_agents.Findings.Thread.{resolve_review_head_sha, config_head, text_of, head_or}
use loupfeed_agents.Tools.Ranges.{AddArgs, full_range, is_reversed, rejection}
use loupfeed_agents.Tools.AddFinding.{
  RunConfig, Added, recorded, in_diff, side_of, record_finding, caught, add_finding, judged,
}

module _ {S : Type 0} (c : Client S) (tid : String) where
  judged-recorded :
      (o : Option String) (d : Bool) (s : S) (r : Result Added × S) (id : String) (dropped : Bool)
      (s' : S)
      → judged c tid o d s r ≡ (ok (recorded id dropped), s')
      → (o ≡ none) × (d ≡ true) × (r ≡ (ok (recorded id dropped), s'))
  unfolding judged
  judged-recorded (some e) d s r id dropped s' h = absurd (cc h)
  judged-recorded none false s r id dropped s' h = absurd (cc h)
  judged-recorded none true s r id dropped s' h = (refl, refl, h)

  -- A recorded finding has passed the checks and lies in the diff.
  pub add_finding_passed :
      (cfg : RunConfig) (a : AddArgs) (new_id : String) (s : S) (id : String) (dropped : Bool)
      (s' : S)
      → add_finding c tid cfg a new_id s ≡ (ok (recorded id dropped), s')
      → (rejection a ≡ none)
        × (in_diff cfg a ≡ true)
        × (caught c tid (record_finding c tid cfg a new_id s) ≡ (ok (recorded id dropped), s'))
  unfolding add_finding
  add_finding_passed cfg a new_id s id dropped s' run =
      judged-recorded (rejection a) (in_diff cfg a) s
        (caught c tid (record_finding c tid cfg a new_id s)) id dropped s' run

  pub read_state : (s : S) (o : Fetch) → (read_metadata tid s o).1 ≡ s
  unfolding read_metadata
  read_state s (found t) = refl
  read_state s not_found = refl
  read_state s failed = refl

  pub pure_state :
      {A B : Type 0} (f : A → B) (m : Result A × S) → (then_run (λ (x : A). pure (f x)) m).1 ≡ m.1
  pure_state f (ok x, s) = refl
  pure_state f (thread_missing t, s) = refl
  pure_state f (raised, s) = refl

  branch_state :
      {A : Type 0} (b : Bool) (m n : S → Result A × S) (s : S)
      → (m s).1 ≡ s
      → (n s).1 ≡ s
      → ((if b then m else n) s).1 ≡ s
  branch_state true m n s p q = p
  branch_state false m n s p q = q

  -- The head is read without a write.
  pub resolve_review_head_sha_unchanged :
      (configurable : Fields) (s : S) → (resolve_review_head_sha c tid configurable s).1 ≡ s
  unfolding resolve_review_head_sha get_thread_metadata
  resolve_review_head_sha_unchanged configurable s =
      branch_state (not (nonempty tid)) (pure (config_head configurable))
        (λ (s : S).
          then_run
            (λ (md : Fields).
              pure (head_or (config_head configurable) (text_of (get "head_sha" md))))
            (get_thread_metadata c tid s))
        s refl
        (pure_state
            (λ (md : Fields). head_or (config_head configurable) (text_of (get "head_sha" md)))
            (get_thread_metadata c tid s)
          ∙ read_state s (c.fetch tid s))

rejection-is_reversed :
    (a : AddArgs) → rejection a ≡ none → is_reversed (full_range a.start_line a.end_line) ≡ false
unfolding rejection
rejection-is_reversed a h = ground (arith, h)

in_diff-is_range_in_diff :
    (cfg : RunConfig) (a : AddArgs) (lines : LineSet) (s e : Option ℕ)
    → cfg.diff_line_set ≡ some lines
    → full_range a.start_line a.end_line ≡ (s, e)
    → in_diff cfg a ≡ is_range_in_diff lines a.file s e (side_of a.side)
unfolding in_diff
in_diff-is_range_in_diff cfg a lines s e set range =
    ap
      (λ (o : Option LineSet). elim o [
        | none ↦ true
        | some l ↦
            is_range_in_diff l a.file (full_range a.start_line a.end_line).0
              (full_range a.start_line a.end_line).1 (side_of a.side)
      ])
      set
    ∙ ap (λ (r : Option ℕ × Option ℕ). is_range_in_diff lines a.file r.0 r.1 (side_of a.side)) range

not_reversed : (lo hi : ℕ) → is_reversed (some lo, some hi) ≡ false → lo ≤ hi
unfolding is_reversed
not_reversed lo hi h = ground (arith, h)

-- Where the run has the line set of its diff, each line of the range of a recorded finding is
-- covered, on the finding's side, by a hunk of its file, and the range is in order.
pub add_finding-is_covered :
    {S : Type 0} (c : Client S) (tid : String) (cfg : RunConfig) (a : AddArgs) (new_id : String)
    (s : S) (id : String) (dropped : Bool) (s' : S) (text : String) (lo hi : ℕ)
    → cfg.diff_line_set ≡ some (compute_diff_line_set text)
    → full_range a.start_line a.end_line ≡ (some lo, some hi)
    → add_finding c tid cfg a new_id s ≡ (ok (recorded id dropped), s')
    → (lo ≤ hi)
      × (all (is_covered (parse_unified_diff text) a.file (side_of a.side)) (lines_between lo hi)
          ≡ true)
add_finding-is_covered c tid cfg a new_id s id dropped s' text lo hi set range run =
    let passed = add_finding_passed c tid cfg a new_id s id dropped s' run in
    let ordered : lo ≤ hi =
      not_reversed lo hi (ap is_reversed (sym range) ∙ rejection-is_reversed a passed.0) in
    (
      ordered,
      sym (is_range_in_diff-compute_diff_line_set text a.file lo hi (side_of a.side) ordered)
          ∙ sym (
              in_diff-is_range_in_diff cfg a (compute_diff_line_set text) (some lo) (some hi) set
                range)
          ∙ passed.1,
    )
