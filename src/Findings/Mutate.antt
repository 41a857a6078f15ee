-- ===== src/Findings/Mutate.antt =====
-- Reading and writing the findings of a thread: the calls return or raise, and what was written
-- stays written.
use loupfeed_agents.Common.{String, Bool, false, Option, none, some, List, [], ◌∷◌, if◌then◌else◌}
use loupfeed_agents.Json.{Fields, field, end, get, eq_text}
use loupfeed_agents.Findings.Client.{
  Client, Fetch, found, not_found, failed, done, missing, broken, metadata_of,
}
use loupfeed_agents.Findings.Coerce.{coerce_findings_list, findings_value}

-- `thread_missing` is `ReviewerThreadMissingError`
pub data Result (A : Type 0) : Type 0 where
  ok : A → Result A
  thread_missing : String → Result A
  raised : Result A

-- What a mutator did to the list: the list behind it, its return value, and what it captured.
pub record Mutated (A : Type 0) : Type 0 where
  pub findings : List Fields
  pub changed : Bool
  pub captured : A

module _ {S : Type 0} where
  -- the rest of a block behind a call, which a raise skips
  abbrev pub then_run : {A B : Type 0} → (A → S → Result B × S) → Result A × S → Result B × S
  then_run f (ok a, s) = f a s
  then_run f (thread_missing t, s) = (thread_missing t, s)
  then_run f (raised, s) = (raised, s)

  infixl 5 ◌>>=◌
  abbrev pub ◌>>=◌ : {A B : Type 0} → (S → Result A × S) → (A → S → Result B × S) → S → Result B × S
  ◌>>=◌ m f s = then_run f (m s)

  abbrev pub pure : {A : Type 0} → A → S → Result A × S
  pure a s = (ok a, s)

-- what `get_thread_metadata` returns or raises, by what the client did; a failure other than a
-- missing thread reads as `{}`
unfoldable pub read_metadata : {S : Type 0} → String → S → Fetch → Result Fields × S
unfolding metadata_of
read_metadata tid s (found thread) = (ok (metadata_of thread), s)
read_metadata tid s not_found = (thread_missing tid, s)
read_metadata tid s failed = (ok end, s)

module _ {S : Type 0} (c : Client S) (tid : String) where
  unfoldable pub get_thread_metadata : S → Result Fields × S
  unfolding read_metadata
  get_thread_metadata s = read_metadata tid s (c.fetch tid s)

  unfoldable pub list_findings : S → Result (List Fields) × S
  unfolding get_thread_metadata coerce_findings_list get
  list_findings = do
    metadata ← get_thread_metadata
    pure (coerce_findings_list (get "findings" metadata))

  unfoldable pub replace_findings : List Fields → S → Result (Unit {0}) × S
  replace_findings findings s =
      elim (c.write tid (field "findings" (findings_value findings) end) s) [
        | done s' ↦ (ok tt, s')
        | missing ↦ (thread_missing tid, s)
        | broken s' ↦ (raised, s')
      ]

  -- the part of `mutate_findings` behind the mutator's call
  unfoldable pub store_mutated : {A : Type 0} → Mutated A → S → Result A × S
  unfolding replace_findings
  store_mutated m =
      if m.changed
      then (do replaced ← replace_findings m.findings; pure m.captured)
      else pure m.captured

  -- `mutate_findings`, with what the mutator captured
  unfoldable pub mutate_findings : {A : Type 0} → (List Fields → Mutated A) → S → Result A × S
  mutate_findings mutator = do findings ← list_findings; store_mutated (mutator findings)

-- The loop of the mutators over the findings, up to the first with the id: its edit, whether that
-- is a change, and the finding captured.
unfoldable pub edit_first :
    String → (Fields → Fields × Bool) → List Fields → Mutated (Option Fields)
unfolding eq_text get
edit_first fid edit [] = record { findings = []; changed = false; captured = none }
edit_first fid edit (f ∷ fs) =
    let (f', changed) = edit f in
    let rest = edit_first fid edit fs in
    if eq_text (get "id" f) fid
    then record { findings = f' ∷ fs; changed = changed; captured = some f' }
    else record rest { findings = f ∷ rest.findings }
