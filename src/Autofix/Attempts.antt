-- ===== src/Autofix/Attempts.antt =====
-- The attempts of a thread over any sequence of failures, and the failure that is handled once.
use loupfeed_agents.Common.{
  ℕ, zero, suc, length-append, ◌+◌, ◌-◌, ◌≤◌, String, ◌≡◌, Bool, ◌&&◌, refl, ap, ◌∙◌, true, Option,
  none, some, List, [], ◌∷◌, ◌++◌, map, length, drop, mem_str, str_eq, eq_refl, arith,
  if◌then◌else◌, Bool-cases, inl, inr,
}
use loupfeed_agents.Json.{
  Value, int, pos, negsuc, str, list, Fields, get, put, update, num_of, as_list, items_of,
  as_list-list, get-put,
}
use loupfeed_agents.Autofix.Prompts.{Target}
use loupfeed_agents.Autofix.Keys.{
  max_handled_keys, attempts_of, handled_of, text_items, last_of, attempt_update,
}
use loupfeed_agents.Autofix.Ports.{
  Ports, Effect, queue_message, create_run, update_thread, status_check, Flow, returned, next,
}
use loupfeed_agents.Autofix.Handler.{start_fix, dispatch_or_queue, record_attempt}

-- the metadata of a thread behind the effects, where its updates take effect or not
abbrev pub apply_effects : Bool → String → Fields → List Effect → Fields
apply_effects takes tid metadata [] = metadata
apply_effects takes tid metadata (update_thread t new ∷ fx) =
    apply_effects takes tid (if takes && str_eq t tid then update metadata new else metadata) fx
apply_effects takes tid metadata (queue_message t p ∷ fx) = apply_effects takes tid metadata fx
apply_effects takes tid metadata (create_run t p c ∷ fx) = apply_effects takes tid metadata fx
apply_effects takes tid metadata (status_check s t ∷ fx) = apply_effects takes tid metadata fx

abbrev pub metadata_after : Ports → String → Fields → Flow (Unit {0}) → Fields
metadata_after ports tid metadata (returned status effects) =
    apply_effects (ports.takes_update tid) tid metadata effects
metadata_after ports tid metadata (next u) = metadata

text_items-map : (l : List String) → text_items (map (λ h. str h) l) ≡ l
unfolding text_items
text_items-map [] = refl
text_items-map (s ∷ ss) = ap (λ (t : List String). s ∷ t) (text_items-map ss)

pub written : ℕ → List String → String → String → Fields → Fields
written attempts handled key head_sha metadata = put "autofix_last_head_sha" (str head_sha) (
    put "autofix_handled"
      (list (items_of (map (λ h. str h) (last_of max_handled_keys (handled ++ key ∷ [])))))
      (put "autofix_attempts" (int (pos (attempts + 1))) metadata))

-- The last of a list stays where the front is dropped.
pub mem_str-drop :
    (key : String) (n : ℕ) (l : List String)
    → n ≤ length l
    → mem_str key (drop n (l ++ key ∷ [])) ≡ true
mem_str-drop key zero [] h = ground (arith, eq_refl key)
mem_str-drop key zero (s ∷ ss) h = ground (arith, mem_str-drop key zero ss (omega arith))
mem_str-drop key (suc n) [] h = absurd (omega (arith, h))
mem_str-drop key (suc n) (s ∷ ss) h = mem_str-drop key n ss (omega (arith, h))

pub length-drop : (n : ℕ) (l : List String) → length (drop n l) ≡ length l - n
length-drop zero l = omega arith
length-drop (suc n) [] = omega arith
length-drop (suc n) (s ∷ ss) = omega (arith, length-drop n ss)

pub length-last_of : (l : List String) → length (last_of max_handled_keys l) ≤ max_handled_keys
length-last_of l = omega (arith, length-drop (length l - max_handled_keys) l)

pub mem_str-last_of :
    (key : String) (l : List String) → mem_str key (last_of max_handled_keys (l ++ key ∷ [])) ≡ true
mem_str-last_of key l =
    mem_str-drop key (length (l ++ key ∷ []) - max_handled_keys) l
      (omega (arith, length-append l (key ∷ [])))

module _ (attempts : ℕ) (handled : List String) (key head_sha : String) (metadata : Fields) where
  get-written :
      (get "autofix_attempts" (written attempts handled key head_sha metadata)
        ≡ int (pos (attempts + 1)))
      × (get "autofix_handled" (written attempts handled key head_sha metadata)
          ≡ list (items_of (map (λ h. str h) (last_of max_handled_keys (handled ++ key ∷ [])))))
  unfolding written
  get-written = (simp get-put, simp get-put)

  pub attempts_of-written :
      attempts_of (written attempts handled key head_sha metadata) ≡ attempts + 1
  unfolding attempts_of
  attempts_of-written =
      ap
        (λ (v : Value). elim (num_of v) [ none ↦ 0 | some z ↦ elim z [ pos n ↦ n | negsuc n ↦ 0 ] ])
        get-written.0

  pub handled_of-written :
      handled_of (written attempts handled key head_sha metadata)
      ≡ last_of max_handled_keys (handled ++ key ∷ [])
  unfolding handled_of
  handled_of-written =
      ap (λ (v : Value). elim (as_list v) [ none ↦ [] | some l ↦ text_items l ]) get-written.1
      ∙ ap (λ (o : Option (List Value)). elim o [ none ↦ [] | some l ↦ text_items l ])
          (as_list-list (map (λ h. str h) (last_of max_handled_keys (handled ++ key ∷ []))))
      ∙ text_items-map (last_of max_handled_keys (handled ++ key ∷ []))

-- a thread with its metadata
module _ (ports : Ports) (p : Target) (tid : String) (metadata : Fields) where
  pub metadata_after-start_fix :
      (actionable : List Fields) (key : String)
      → metadata_after ports tid metadata (start_fix ports p (tid, metadata) (actionable, key)) ≡ (
          if ports.takes_update tid
          then written (attempts_of metadata) (handled_of metadata) key p.head_sha metadata
          else metadata)
  unfolding start_fix dispatch_or_queue record_attempt attempt_update written update
  metadata_after-start_fix actionable key = elim (Bool-cases (ports.is_thread_active tid)) [
    | inl h ↦ elim (Bool-cases (ports.takes_update tid)) [
      | inl u ↦ rw (h, u, eq_refl)
      | inr u ↦ rw (h, u) refl
    ]
    | inr h ↦ elim (Bool-cases (ports.takes_update tid)) [
      | inl u ↦ rw (h, u, eq_refl)
      | inr u ↦ rw (h, u) refl
    ]
  ]
