-- ===== src/Autofix/Runs.antt =====
-- Any sequence of failures on one thread, and the cap on its attempts.
use loupfeed_agents.Common.{
  ℕ, ◌+◌, ◌≤◌, ◌<◌, String, ◌≡◌, refl, ap, ◌∙◌, Bool, true, false, Option, List, [], ◌∷◌, arith,
  any, Bool-cases, ◌⊎◌, inl, inr, if◌then◌else◌,
}
use loupfeed_agents.Json.{Fields}
use loupfeed_agents.Autofix.Prompts.{Target}
use loupfeed_agents.Autofix.Keys.{max_autofix_attempts, attempts_of, handled_of}
use loupfeed_agents.Autofix.Ports.{
  Ports, Effect, queue_message, create_run, update_thread, status_check, Flow, returned, next,
}
use loupfeed_agents.Autofix.Handler.{fix_on_thread, read_failing}
use loupfeed_agents.Autofix.Allowed.{
  is_fix, fixes, Allowed, actionable_of, fix_on_thread-Allowed, fix_on_thread-start_fix,
}
use loupfeed_agents.Autofix.Attempts.{
  apply_effects, metadata_after, written, attempts_of-written, metadata_after-start_fix,
}

apply_effects-untouched :
    (takes : Bool) (tid : String) (metadata : Fields) (fx : List Effect)
    → any is_fix fx ≡ false
    → apply_effects takes tid metadata fx ≡ metadata
apply_effects-untouched takes tid metadata [] h = refl
apply_effects-untouched takes tid metadata (status_check s t ∷ fx) h =
    apply_effects-untouched takes tid metadata fx h
apply_effects-untouched takes tid metadata (update_thread t new ∷ fx) h = absurd (cc h)
apply_effects-untouched takes tid metadata (queue_message t p ∷ fx) h = absurd (cc h)
apply_effects-untouched takes tid metadata (create_run t p c ∷ fx) h = absurd (cc h)

metadata_after-untouched :
    (ports : Ports) (tid : String) (metadata : Fields) (m : Flow (Unit {0}))
    → fixes m ≡ false
    → metadata_after ports tid metadata m ≡ metadata
metadata_after-untouched ports tid metadata (returned status fx) h =
    apply_effects-untouched (ports.takes_update tid) tid metadata fx h
metadata_after-untouched ports tid metadata (next u) h = refl

-- what a fix records, where its update takes effect, and what is left where there is none
module _ (ports : Ports) (p : Target) (given : Option (List Fields)) (tid : String)
    (metadata : Fields) where
  pub after_fix :
      fixes (fix_on_thread ports p given (tid, metadata)) ≡ true
      → (checks : List Fields) × (read_failing ports p given ≡ next checks)
        × (metadata_after ports tid metadata (fix_on_thread ports p given (tid, metadata)) ≡ (
            if ports.takes_update tid
            then written
                (attempts_of metadata)
                (handled_of metadata)
                (actionable_of ports p checks).1
                p.head_sha
                metadata
            else metadata))
  after_fix h =
      let started = fix_on_thread-start_fix ports p given (tid, metadata) h in
      let actionable = actionable_of ports p started.0 in
      (
        started.0,
        started.1,
        ap (metadata_after ports tid metadata) started.2
            ∙ metadata_after-start_fix ports p tid metadata actionable.0 actionable.1,
      )

  -- What a call leaves: the metadata as it was, or, below the cap, with the attempt recorded.
  pub step :
      (metadata_after ports tid metadata (fix_on_thread ports p given (tid, metadata)) ≡ metadata)
      ⊎ ((attempts_of metadata < max_autofix_attempts)
          × ((key : String) × (metadata_after ports tid metadata
                  (fix_on_thread ports p given (tid, metadata))
                ≡ written (attempts_of metadata) (handled_of metadata) key p.head_sha metadata)))
  step = elim (Bool-cases (fixes (fix_on_thread ports p given (tid, metadata)))) [
    | inl fix ↦
        let w = after_fix fix in
        elim (Bool-cases (ports.takes_update tid)) [
          | inl u ↦ inr (
            Allowed.below_cap (fix_on_thread-Allowed ports p given (tid, metadata) fix),
            ((actionable_of ports p w.0).1, w.2 ∙ rw u refl),
          )
          | inr u ↦ inl (w.2 ∙ rw u refl)
        ]
    | inr quiet ↦ inl (
        metadata_after-untouched ports tid metadata (fix_on_thread ports p given (tid, metadata))
          quiet)
  ]

-- The metadata that a thread can have after failures, with any answers from the services.
pub data Reached (tid : String) (metadata : Fields) : Fields → Type 0 where
  start : Reached tid metadata metadata
  failure :
      {m : Fields}
      → Reached tid metadata m
      → (ports : Ports) (p : Target) (given : Option (List Fields))
      → Reached tid metadata (metadata_after ports tid m (fix_on_thread ports p given (tid, m)))

step_capped :
    (ports : Ports) (p : Target) (given : Option (List Fields)) (tid : String) (m : Fields)
    → attempts_of m ≤ max_autofix_attempts
    → (attempts_of m
        ≤ attempts_of (metadata_after ports tid m (fix_on_thread ports p given (tid, m))))
      × (attempts_of (metadata_after ports tid m (fix_on_thread ports p given (tid, m)))
          ≤ max_autofix_attempts)
step_capped ports p given tid m h = elim (step ports p given tid m) [
  | inl same ↦ kept_by (attempts_of m) _ (ap attempts_of same) h
  | inr (below, (key, w)) ↦
      capped_by (attempts_of m) _
        (ap attempts_of w ∙ attempts_of-written (attempts_of m) (handled_of m) key p.head_sha m)
        below
]
  where
    capped_by :
        (a b : ℕ) → b ≡ a + 1 → a < max_autofix_attempts → (a ≤ b) × (b ≤ max_autofix_attempts)
    capped_by a b e h = (omega (arith, e), omega (arith, e, h))

    kept_by : (a b : ℕ) → b ≡ a → a ≤ max_autofix_attempts → (a ≤ b) × (b ≤ max_autofix_attempts)
    kept_by a b e h = (omega (arith, e), omega (arith, e, h))

-- Whatever failures come in, and whatever the services answer, the attempts of a thread never go
-- down and never pass the cap.
pub attempts_of-Reached :
    (tid : String) (metadata reached : Fields)
    → attempts_of metadata ≤ max_autofix_attempts
    → Reached tid metadata reached
    → (attempts_of metadata ≤ attempts_of reached) × (attempts_of reached ≤ max_autofix_attempts)
attempts_of-Reached tid metadata reached h start = (omega arith, h)
attempts_of-Reached tid metadata reached h (failure {m} r ports p given) =
    let ih = attempts_of-Reached tid metadata m h r in
    let one = step_capped ports p given tid m ih.1 in (omega (arith, ih.0, one.0), one.1)
