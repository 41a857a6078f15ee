-- ===== src/Findings/Client.antt =====
-- The LangGraph client that the findings store uses, as a parameter: reading a thread and merging
-- keys into its metadata. What the SDK documents of it is `IsMerging`.
use loupfeed_agents.Common.{
  String, ◌≡◌, ◌≢◌, refl, none, some, List, [], ◌∷◌, if◌then◌else◌, str_eq, ◌⊎◌, inl, inr,
}
use loupfeed_agents.Json.{Value, dict, Fields, field, end, get, as_dict, update}

-- `client.threads.get`: a thread, `NotFoundError`, or any other exception
pub data Fetch : Type 0 where
  found : Value → Fetch
  not_found : Fetch
  failed : Fetch

-- `client.threads.update`: the state behind it, `NotFoundError`, or any other exception with the
-- state behind that, as one may come when the write was made
pub data Write (S : Type 0) : Type 0 where
  done : S → Write S
  missing : Write S
  broken : S → Write S

pub Write-cases :
    {S : Type 0} (w : Write S)
    → ((s' : S) × (w ≡ done s')) ⊎ ((w ≡ missing) ⊎ ((s' : S) × (w ≡ broken s')))
Write-cases (done s') = inl (s', refl)
Write-cases missing = inr (inl refl)
Write-cases (broken s') = inr (inr (s', refl))

pub record Client (S : Type 0) : Type 0 where
  pub fetch : String → S → Fetch
  pub write : String → Fields → S → Write S

-- `thread.get("metadata") if isinstance(thread, dict) else None`, and `{}` where that is no dict
unfoldable pub metadata_of : Value → Fields
unfolding as_dict get
metadata_of thread = elim (as_dict thread) [
  | none ↦ end
  | some t ↦ elim (as_dict (get "metadata" t)) [ none ↦ end | some m ↦ m ]
]

-- A write merges its keys into the metadata of its thread, and leaves the other threads alone; one
-- that raises has merged all of them or none.
pub record IsMerging {S : Type 0} (c : Client S) : Type 0 where
  pub merged :
      (tid : String) (md : Fields) (s s' : S) (thread : Value)
      → c.fetch tid s ≡ found thread
      → c.write tid md s ≡ done s'
      → (thread' : Value) × (c.fetch tid s' ≡ found thread')
        × (metadata_of thread' ≡ update (metadata_of thread) md)
  pub others :
      (tid other : String) (md : Fields) (s s' : S)
      → tid ≢ other
      → c.write tid md s ≡ done s'
      → c.fetch other s' ≡ c.fetch other s
  pub torn :
      (tid : String) (md : Fields) (s s' : S) (thread : Value)
      → c.fetch tid s ≡ found thread
      → c.write tid md s ≡ broken s'
      → (thread' : Value) × (c.fetch tid s' ≡ found thread')
        × ((metadata_of thread' ≡ metadata_of thread)
            ⊎ (metadata_of thread' ≡ update (metadata_of thread) md))

-- A client over a list of threads, which never fails on a thread that it has.
abbrev pub Threads : Type 0
Threads = List (String × Fields)

abbrev pub fetch_in : String → Threads → Fetch
fetch_in tid [] = not_found
fetch_in tid ((t, md) ∷ ts) =
    if str_eq t tid then found (dict (field "metadata" (dict md) end)) else fetch_in tid ts

abbrev pub cons_write : String × Fields → Write Threads → Write Threads
cons_write t (done ts) = done (t ∷ ts)
cons_write t missing = missing
cons_write t (broken ts) = broken (t ∷ ts)

abbrev pub write_in : String → Fields → Threads → Write Threads
write_in tid new [] = missing
write_in tid new ((t, md) ∷ ts) =
    if str_eq t tid
    then done ((t, update md new) ∷ ts)
    else cons_write (t, md) (write_in tid new ts)

abbrev pub list_client : Client Threads
list_client = record { fetch = fetch_in; write = write_in }
