-- ===== src/Queue/Check.antt =====
-- `check_message_queue_before_model`: what it injects, and the queue behind it.
use loupfeed_agents.Common.{String, Option, none, some, List, [], ◌∷◌, if◌then◌else◌, nonempty}
use loupfeed_agents.Json.{Value, truthy, as_dict, as_list}
use loupfeed_agents.Queue.Store.{Read, item, absent, failed, Store, messages_in}
use loupfeed_agents.Queue.Blocks.{Env, messages_blocks, resolved_model_id}

-- the message to inject, by its content blocks: none where there are no blocks
abbrev pub injected : Option (List Value) → Option (List Value)
injected none = none
injected (some []) = none
injected (some (b ∷ bs)) = some (b ∷ bs)

-- what the middleware returns of the queued messages
unfoldable pub inject : Env → List Value → Option (List Value)
unfolding messages_blocks resolved_model_id
inject env ms = injected (messages_blocks env (resolved_model_id env ms) ms)

-- what it returns of `queued_value["messages"]`: what is no list raises in the loops
unfoldable pub inject_value : Env → Value → Option (List Value)
unfolding truthy as_list inject
inject_value env v =
    if truthy v then (elim (as_list v) [ none ↦ none | some ms ↦ inject env ms ]) else none

module _ {S : Type 0} (st : Store S) (tid : String) where
  -- behind the read: the item is deleted before the messages are looked at
  unfoldable pub take_item : Env → Read → S → Option (List Value) × S
  unfolding as_dict messages_in inject_value
  take_item env absent s = (none, s)
  take_item env failed s = (none, s)
  take_item env (item v) s = elim (as_dict v) [
    | none ↦ (none, s)
    | some d ↦ elim (st.delete tid s) [
      | none ↦ (none, s)
      | some s' ↦ (inject_value env (messages_in d), s')
    ]
  ]

  unfoldable pub check_store : Env → S → Option (List Value) × S
  unfolding take_item
  check_store env s = if nonempty tid then take_item env (st.read tid s) s else (none, s)

-- The store of the graph may be missing.
unfoldable pub check_message_queue_before_model :
    {S : Type 0} → Option (Store S) → String → Env → S → Option (List Value) × S
unfolding check_store
check_message_queue_before_model none tid env s = (none, s)
check_message_queue_before_model (some st) tid env s = check_store st tid env s
