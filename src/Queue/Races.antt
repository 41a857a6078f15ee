-- ===== src/Queue/Races.antt =====
-- Where the queue loses or repeats a message: a read of the store that raises, and calls that overlap
-- between the read and the write of `queue_message_for_thread`.
use loupfeed_agents.Common.{
  String, ◌≡◌, refl, sym, ◌∙◌, true, some, List, [], ◌∷◌, ◌++◌, map, nonempty, arith,
}
use loupfeed_agents.Json.{Value, as_list, list_of}
use loupfeed_agents.Queue.Store.{
  failed, Store, message, read_pending, write_pending, queue_message_for_thread, existing_messages,
}
use loupfeed_agents.Queue.Blocks.{Env}
use loupfeed_agents.Queue.Check.{inject, check_message_queue_before_model}
use loupfeed_agents.Queue.Fifo.{
  Fifo, IsReliable, Holds, read_pending-Holds, write_pending-Holds, check-Holds,
  queue_message-Holds,
}

some-inj : {A : Type 0} {a b : A} → some a ≡ some b → a ≡ b
some-inj {A} {a} {b} h = ground (arith, h)

module _ {S : Type 0} (st : Store S) (tid : String) (works : IsReliable st tid) where
  failed_pending : (s : S) → st.read tid s ≡ failed → read_pending st tid s ≡ some []
  unfolding read_pending existing_messages as_list list_of
  failed_pending s e = rw e refl

  -- Where the writes of the store succeed: a message that arrives while the read of the queue raises is taken, and
  -- the store then holds that message alone, whatever it held before.
  pub queue_message-failed_read :
      (s : S) (c : Value)
      → st.read tid s ≡ failed
      → (s' : S) × (queue_message_for_thread st tid c s ≡ (true, s')) × Holds st tid s' (c ∷ [])
  unfolding queue_message_for_thread
  queue_message-failed_read s c e =
      let w = write_pending-Holds st tid works s [] c in
      (w.0, rw (failed_pending s e, queue_message_for_thread) w.1, w.2)

  -- With a named thread, where the calls of the store succeed and it holds the queue `q`: once a call
  -- has read the queue,
  -- another call that runs before the write is taken, and so is the first, but the store then
  -- holds `q` with the first message alone: the second is lost. And a check that runs before the write injects
  -- the messages of `q`, which the store then holds again, with the new one behind them.
  pub queue_message-overlapping :
      (env : Env) (s : S) (q : Fifo) (a b : Value) (ms : List Value)
      → nonempty tid ≡ true
      → Holds st tid s q
      → read_pending st tid s ≡ some ms
      → ((t : S) × (queue_message_for_thread st tid b s ≡ (true, t))
          × (u : S) × (write_pending st tid ms a t ≡ (true, u))
          × Holds st tid u (q ++ a ∷ []))
        × ((t : S) × (check_message_queue_before_model (some st) tid env s
              ≡ (inject env (map message q), t))
            × (u : S) × (write_pending st tid ms a t ≡ (true, u))
            × Holds st tid u (q ++ a ∷ []))
  queue_message-overlapping env s q a b ms named h read =
      let same = some-inj (sym read ∙ read_pending-Holds st tid works s q h) in
      let other = queue_message-Holds st tid works s q b h in
      let check = check-Holds st tid works env s q named h in
      let first = write_pending-Holds st tid works other.0 q a in
      let again = write_pending-Holds st tid works check.0 q a in
      rw same (
        (other.0, other.1, first.0, first.1, first.2),
        (check.0, check.1, again.0, again.1, again.2),
      )
