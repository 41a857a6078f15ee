-- ===== src/Queue/Fifo.antt =====
-- The queue that the two functions promise: contents in the order of arrival, all of them taken by
-- the next check. Over a store whose calls succeed, every run of the code is a run of this queue.
use loupfeed_agents.Common.{
  String, ◌≡◌, refl, ap, ◌∙◌, Bool, true, Option, none, some, List, [], ◌∷◌, ◌++◌, map, nonempty,
  ◌⊎◌, inl, inr,
}
use loupfeed_agents.Json.{
  Value, dict, list, Fields, as_dict, as_list, items_of, list_of-items_of, truthy, as_list-list,
}
use loupfeed_agents.Queue.Store.{
  item, absent, Store, message, pending, read_pending, write_pending, queue_message_for_thread,
  existing_messages, messages_in,
}
use loupfeed_agents.Queue.Blocks.{Env, messages_blocks}
use loupfeed_agents.Queue.Check.{
  inject, inject_value, take_item, check_store, check_message_queue_before_model,
}

-- What happens to a thread: a message arrives, or the agent is about to call its model.
pub data Event : Type 0 where
  queued : Value → Event
  checked : Env → Event

-- what an event answers: whether the message was taken, or the blocks that are injected
pub data Reply : Type 0 where
  taken : Bool → Reply
  blocks : Option (List Value) → Reply

abbrev pub Fifo : Type 0
Fifo = List Value

-- the answers of the queue
unfoldable pub replies : Fifo → List Event → List Reply
replies q [] = []
replies q (queued content ∷ es) = taken true ∷ replies (q ++ content ∷ []) es
replies q (checked env ∷ es) = blocks (inject env (map message q)) ∷ replies [] es

-- the contents that are left behind the events
unfoldable pub left : Fifo → List Event → Fifo
left q [] = q
left q (queued content ∷ es) = left (q ++ content ∷ []) es
left q (checked env ∷ es) = left [] es

-- the code over the events
module _ {S : Type 0} (st : Store S) (tid : String) where
  unfoldable pub run : S → List Event → List Reply × S
  unfolding queue_message_for_thread check_message_queue_before_model
  run s [] = ([], s)
  run s (queued content ∷ es) =
      let call = queue_message_for_thread st tid content s in
      let rest = run call.1 es in (taken call.0 ∷ rest.0, rest.1)
  run s (checked env ∷ es) =
      let call = check_message_queue_before_model (some st) tid env s in
      let rest = run call.1 es in (blocks call.0 ∷ rest.0, rest.1)

-- A store whose calls on the thread succeed: what was put is read, and what was deleted is gone.
pub record IsReliable {S : Type 0} (st : Store S) (tid : String) : Type 0 where
  pub puts :
      (v : Fields) (s : S)
      → (s' : S) × (st.put tid v s ≡ some s') × (st.read tid s' ≡ item (dict v))
  pub deletes : (s : S) → (s' : S) × (st.delete tid s ≡ some s') × (st.read tid s' ≡ absent)

-- The store holds the queue: as its item, or by having none.
abbrev pub Holds : {S : Type 0} → Store S → String → S → Fifo → Type 0
Holds st tid s q =
    (st.read tid s ≡ item (dict (pending (map message q)))) ⊎ ((st.read tid s ≡ absent) × (q ≡ []))

as_list-pending :
    (ms : List Value) → as_list (existing_messages (item (dict (pending ms)))) ≡ some ms
unfolding existing_messages as_list messages_in as_dict truthy
as_list-pending ms = ap some (list_of-items_of ms)

map-snoc : (q : Fifo) (c : Value) → map message q ++ message c ∷ [] ≡ map message (q ++ c ∷ [])
map-snoc [] c = refl
map-snoc (x ∷ q) c = ap (λ (l : List Value). message x ∷ l) (map-snoc q c)

inject_value-pending :
    (env : Env) (ms : List Value) → inject_value env (list (items_of ms)) ≡ inject env ms
unfolding inject_value items_of
inject_value-pending env [] = unfold inject in unfold messages_blocks in refl
inject_value-pending env (m ∷ ms) =
    unfold truthy in
    ap (λ (o : Option (List Value)). elim o [ none ↦ none | some l ↦ inject env l ])
      (as_list-list (m ∷ ms))

module _ {S : Type 0} (st : Store S) (tid : String) (works : IsReliable st tid) where
  pub read_pending-Holds :
      (s : S) (q : Fifo) → Holds st tid s q → read_pending st tid s ≡ some (map message q)
  unfolding read_pending
  read_pending-Holds s q (inl e) = rw e (as_list-pending (map message q))
  read_pending-Holds s q (inr e) =
      rw (e.0, e.1) (unfold existing_messages in unfold as_list in refl)

  pub write_pending-Holds :
      (s : S) (q : Fifo) (c : Value)
      → (s' : S) × (write_pending st tid (map message q) c s ≡ (true, s'))
        × Holds st tid s' (q ++ c ∷ [])
  unfolding write_pending items_of
  write_pending-Holds s q c =
      let w = works.puts (pending (map message q ++ message c ∷ [])) s in
      (
        w.0,
        rw (w.1, write_pending) refl,
        inl (w.2 ∙ ap (λ (ms : List Value). item (dict (pending ms))) (map-snoc q c)),
      )

  pub queue_message-Holds :
      (s : S) (q : Fifo) (c : Value)
      → Holds st tid s q
      → (s' : S) × (queue_message_for_thread st tid c s ≡ (true, s'))
        × Holds st tid s' (q ++ c ∷ [])
  unfolding queue_message_for_thread
  queue_message-Holds s q c h =
      let w = write_pending-Holds s q c in
      (w.0, rw (read_pending-Holds s q h, queue_message_for_thread) w.1, w.2)

  check_item :
      (env : Env) (s : S) (q : Fifo)
      → (s' : S) × (take_item st tid env (item (dict (pending (map message q)))) s
          ≡ (inject env (map message q), s'))
        × (st.read tid s' ≡ absent)
  unfolding take_item messages_in as_dict
  check_item env s q =
      let d = works.deletes s in
      (
        d.0,
        rw d.1
            (ap (λ (o : Option (List Value)). (o, d.0)) (inject_value-pending env (map message q))),
        d.2,
      )

  check_absent : (env : Env) (s : S) → take_item st tid env absent s ≡ (inject env [], s)
  unfolding take_item inject messages_blocks
  check_absent env s = refl

  pub check-Holds :
      (env : Env) (s : S) (q : Fifo)
      → nonempty tid ≡ true
      → Holds st tid s q
      → (s' : S) × (check_message_queue_before_model (some st) tid env s
          ≡ (inject env (map message q), s'))
        × Holds st tid s' []
  unfolding check_message_queue_before_model check_store
  check-Holds env s q named (inl e) =
      let d = check_item env s q in (d.0, rw named (rw e d.1), inr (d.2, refl))
  check-Holds env s q named (inr e) =
      (s, rw named (rw (e.0, e.1) (check_absent env s)), inr (e.0, refl))

  -- With a named thread, a store whose calls on it succeed, and the store holding the queue: over any
  -- events, each message is taken and each check injects the blocks of exactly the messages that
  -- arrived since the check before, in the order of arrival; behind the events the store holds those
  -- that arrived since the last check.
  pub run-replies :
      (es : List Event) (s : S) (q : Fifo)
      → nonempty tid ≡ true
      → Holds st tid s q
      → ((run st tid s es).0 ≡ replies q es) × Holds st tid (run st tid s es).1 (left q es)
  unfolding run replies left
  run-replies [] s q named h = (refl, h)
  run-replies (queued c ∷ es) s q named h =
      let w = queue_message-Holds s q c h in
      let ih = run-replies es w.0 (q ++ c ∷ []) named w.2 in
      rw w.1 (ap (λ (l : List Reply). taken true ∷ l) ih.0, ih.1)
  run-replies (checked env ∷ es) s q named h =
      let w = check-Holds env s q named h in
      let ih = run-replies es w.0 [] named w.2 in
      rw w.1 (ap (λ (l : List Reply). blocks (inject env (map message q)) ∷ l) ih.0, ih.1)
