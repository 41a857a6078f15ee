-- ===== src/Autofix/Handled.antt =====
-- A failure for which a fix was recorded: its key stays among the handled ones for as long as the cap
-- lets fixes be started.
use loupfeed_agents.Common.{
  ℕ, zero, suc, ◌+◌, ◌-◌, ◌≤◌, ◌<◌, String, ◌≡◌, refl, sym, ap, subst, ◌∙◌, true, false, Option,
  List, [], ◌∷◌, ◌++◌, length, length-append, drop, mem_str, arith, Bool-cases, inl, inr,
}
use loupfeed_agents.Json.{Fields}
use loupfeed_agents.Autofix.Prompts.{Target}
use loupfeed_agents.Autofix.Keys.{
  max_autofix_attempts, max_handled_keys, attempts_of, handled_of, last_of,
}
use loupfeed_agents.Autofix.Ports.{Ports, next}
use loupfeed_agents.Autofix.Handler.{fix_on_thread, read_failing}
use loupfeed_agents.Autofix.Allowed.{fixes, Allowed, actionable_of, fix_on_thread-Allowed}
use loupfeed_agents.Autofix.Attempts.{
  metadata_after, written, attempts_of-written, handled_of-written, mem_str-drop, length-drop,
  length-last_of,
}
use loupfeed_agents.Autofix.Runs.{after_fix, step, Reached, start, failure}

drop_none : (n : ℕ) (l : List String) → l ≡ [] → drop n l ≡ []
drop_none zero l e = e
drop_none (suc n) [] e = refl
drop_none (suc n) (x ∷ xs) e = absurd (cc e)

drop-drop : (j i k : ℕ) (l : List String) → k ≡ j + i → drop i (drop j l) ≡ drop k l
drop-drop zero i k l e = let same : i ≡ k = omega (arith, e) in ap (λ (n : ℕ). drop n l) same
drop-drop (suc j) i k [] e = drop_none i [] refl ∙ sym (drop_none k [] refl)
drop-drop (suc j) i zero (x ∷ xs) e = absurd (omega (arith, e))
drop-drop (suc j) i (suc k) (x ∷ xs) e = drop-drop j i k xs (omega (arith, e))

-- the last ones of the last ones
last_of-last_of : (n m : ℕ) (l : List String) → n ≤ m → last_of n (last_of m l) ≡ last_of n l
last_of-last_of n m l h =
    drop-drop (length l - m) (length (last_of m l) - n) (length l - n) l
      (depth (length l) (length (last_of m l)) (length-drop (length l - m) l))
  where
    depth : (a b : ℕ) → b ≡ a - (a - m) → a - n ≡ (a - m) + (b - n)
    depth a b e = omega (arith, e, h)

mem_str-front :
    (key k : String) (l : List String) → mem_str key l ≡ true → mem_str key (l ++ k ∷ []) ≡ true
mem_str-front key k [] h = absurd (cc h)
mem_str-front key k (x ∷ xs) h = ground (arith, h, mem_str-front key k xs)

-- What is in the last of a list is in the last of a longer one.
mem_str-behind :
    (key k : String) (n : ℕ) (l : List String)
    → mem_str key (drop n l) ≡ true
    → mem_str key (drop n (l ++ k ∷ [])) ≡ true
mem_str-behind key k zero l h = mem_str-front key k l h
mem_str-behind key k (suc n) [] h = absurd (cc h)
mem_str-behind key k (suc n) (x ∷ xs) h = mem_str-behind key k n xs h

mem_str-whole :
    (key : String) (n : ℕ) (l : List String) → mem_str key (drop n l) ≡ true → mem_str key l ≡ true
mem_str-whole key zero l h = h
mem_str-whole key (suc n) [] h = absurd (cc h)
mem_str-whole key (suc n) (x ∷ xs) h = ground (arith, mem_str-whole key n xs h)

-- The key is among the last handled ones, of which there are as many as attempts.
record Recalls (key : String) (m : Fields) : Type 0 where
  pub capped : attempts_of m ≤ max_autofix_attempts
  pub bounded : length (handled_of m) ≤ max_handled_keys
  pub recent : mem_str key (last_of (attempts_of m) (handled_of m)) ≡ true

-- a key in the last of the handled ones with one more behind them
recorded-Recalls :
    (key new : String) (a : ℕ) (handled : List String) (m' : Fields)
    → a < max_autofix_attempts
    → attempts_of m' ≡ a + 1
    → handled_of m' ≡ last_of max_handled_keys (handled ++ new ∷ [])
    → mem_str key (drop (length handled - a) (handled ++ new ∷ [])) ≡ true
    → Recalls key m'
recorded-Recalls key new a handled m' below e h there = record {
  capped = capped_by (attempts_of m') e;
  bounded =
      bounded_by (length (handled_of m')) _ (ap length h) (length-last_of (handled ++ new ∷ []));
  recent =
      ap (λ (k : ℕ). mem_str key (last_of k (handled_of m'))) e
      ∙ ap (λ (l : List String). mem_str key (last_of (a + 1) l)) h
      ∙ ap (mem_str key)
          (last_of-last_of (a + 1) max_handled_keys (handled ++ new ∷ []) (omega (arith, below)))
      ∙ ap (λ (k : ℕ). mem_str key (drop k (handled ++ new ∷ [])))
          (depth (length (handled ++ new ∷ [])) (length handled) (length-append handled (new ∷ [])))
      ∙ there;
}
  where
    capped_by : (b : ℕ) → b ≡ a + 1 → b ≤ max_autofix_attempts
    capped_by b e = omega (arith, e, below)

    bounded_by : (x y : ℕ) → x ≡ y → y ≤ max_handled_keys → x ≤ max_handled_keys
    bounded_by x y e h = omega (arith, e, h)

    depth : (x y : ℕ) → x ≡ y + 1 → x - (a + 1) ≡ y - a
    depth x y e = omega (arith, e)

step-Recalls :
    (key : String) (ports : Ports) (p : Target) (given : Option (List Fields)) (tid : String)
    (m : Fields)
    → Recalls key m
    → Recalls key (metadata_after ports tid m (fix_on_thread ports p given (tid, m)))
step-Recalls key ports p given tid m r = elim (step ports p given tid m) [
  | inl same ↦ subst (Recalls key) (sym same) r
  | inr (below, (new, w)) ↦
      recorded-Recalls key new (attempts_of m) (handled_of m) _ below
        (ap attempts_of w ∙ attempts_of-written (attempts_of m) (handled_of m) new p.head_sha m)
        (ap handled_of w ∙ handled_of-written (attempts_of m) (handled_of m) new p.head_sha m)
        (mem_str-behind key new (length (handled_of m) - attempts_of m) (handled_of m)
          (Recalls.recent r))
]

Reached-Recalls :
    (key tid : String) (metadata reached : Fields)
    → Recalls key metadata
    → Reached tid metadata reached
    → Recalls key reached
Reached-Recalls key tid metadata reached r start = r
Reached-Recalls key tid metadata reached r (failure {m} before ports p given) =
    step-Recalls key ports p given tid m (Reached-Recalls key tid metadata m r before)

next-inj : {A : Type 0} (a b : A) → next a ≡ next b → a ≡ b
next-inj a b h = ground (arith, h)

-- the fix whose record takes effect
first-Recalls :
    (ports : Ports) (p : Target) (given : Option (List Fields)) (tid : String) (metadata : Fields)
    (checks : List Fields)
    → read_failing ports p given ≡ next checks
    → fixes (fix_on_thread ports p given (tid, metadata)) ≡ true
    → ports.takes_update tid ≡ true
    → Recalls
        (actionable_of ports p checks).1
        (metadata_after ports tid metadata (fix_on_thread ports p given (tid, metadata)))
first-Recalls ports p given tid metadata checks read fix takes =
    let done = after_fix ports p given tid metadata fix in
    let same : done.0 ≡ checks = next-inj _ _ (sym done.1 ∙ read) in
    let key = (actionable_of ports p done.0).1 in
    let m' = metadata_after ports tid metadata (fix_on_thread ports p given (tid, metadata)) in
    let w : m' ≡ written (attempts_of metadata) (handled_of metadata) key p.head_sha metadata =
      done.2 ∙ rw takes refl in
    subst (λ (cs : List Fields). Recalls (actionable_of ports p cs).1 m') same
      (recorded-Recalls key key (attempts_of metadata) (handled_of metadata) m'
        (Allowed.below_cap (fix_on_thread-Allowed ports p given (tid, metadata) fix))
        (ap attempts_of w
          ∙ attempts_of-written (attempts_of metadata) (handled_of metadata) key p.head_sha
              metadata)
        (ap handled_of w
          ∙ handled_of-written (attempts_of metadata) (handled_of metadata) key p.head_sha metadata)
        (mem_str-drop key (length (handled_of metadata) - attempts_of metadata)
          (handled_of metadata) (omega arith)))

-- Where a fix was started and the update that records it took effect: whatever failures come in on
-- the thread after that, one after another, and whatever the services answer, a failure with the
-- same key is not acted on again, and the list of handled failures stays bounded.
pub fix_on_thread-handled :
    (ports : Ports) (p : Target) (given : Option (List Fields)) (tid : String) (metadata : Fields)
    (checks : List Fields) (reached : Fields) (later : Ports) (q : Target)
    (given' : Option (List Fields)) (checks' : List Fields)
    → read_failing ports p given ≡ next checks
    → fixes (fix_on_thread ports p given (tid, metadata)) ≡ true
    → ports.takes_update tid ≡ true
    → Reached tid
        (metadata_after ports tid metadata (fix_on_thread ports p given (tid, metadata)))
        reached
    → read_failing later q given' ≡ next checks'
    → (actionable_of later q checks').1 ≡ (actionable_of ports p checks).1
    → (fixes (fix_on_thread later q given' (tid, reached)) ≡ false)
      × (length (handled_of reached) ≤ max_handled_keys)
fix_on_thread-handled ports p given tid metadata checks reached later q given' checks' read fix
      takes history read' same =
    let r =
      Reached-Recalls _ tid _ reached
        (first-Recalls ports p given tid metadata checks read fix takes) history in
    let known : mem_str (actionable_of later q checks').1 (handled_of reached) ≡ true =
      ap (λ (k : String). mem_str k (handled_of reached)) same
      ∙ mem_str-whole (actionable_of ports p checks).1
          (length (handled_of reached) - attempts_of reached) (handled_of reached)
          (Recalls.recent r) in
    (
      elim (Bool-cases (fixes (fix_on_thread later q given' (tid, reached)))) [
        | inr quiet ↦ quiet
        | inl again ↦
            let allowed = fix_on_thread-Allowed later q given' (tid, reached) again in
            let these : Allowed.checks allowed ≡ checks' =
              next-inj _ _ (sym (Allowed.read allowed) ∙ read') in
            absurd (
              clash (
                sym (Allowed.unhandled allowed)
                ∙ ap
                    (λ (cs : List Fields).
                      mem_str (actionable_of later q cs).1 (handled_of reached))
                    these
                ∙ known))
      ],
      Recalls.bounded r,
    )
  where
    clash : false ≡ true → ⊥
    clash h = cc h
