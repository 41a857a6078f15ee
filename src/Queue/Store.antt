-- ===== src/Queue/Store.antt =====
-- `queue_message_for_thread`, over the LangGraph store as a parameter.
use loupfeed_agents.Common.{
  String, Bool, true, false, Option, none, some, List, [], ◌∷◌, ◌++◌, if◌then◌else◌,
}
use loupfeed_agents.Json.{
  Value, list, nil, dict, Fields, field, end, get, has, truthy, as_dict, as_list, items_of,
}

-- a read of the item `pending_messages`: its value, no item, or an exception
pub data Read : Type 0 where
  item : Value → Read
  absent : Read
  failed : Read

-- The item of a thread in the store, which the SDK's client (`get_item`, `put_item`) and the store of
-- the graph (`aget`, `adelete`) both reach; a write or a deletion that raises is `none`.
pub record Store (S : Type 0) : Type 0 where
  pub read : String → S → Read
  pub put : String → Fields → S → Option S
  pub delete : String → S → Option S

-- `value.get("messages", [])`
unfoldable pub messages_in : Fields → Value
unfolding has get
messages_in d = if has "messages" d then get "messages" d else list nil

-- `existing_messages`: a read that raises, and a value that is no dict, leave it empty
unfoldable pub existing_messages : Read → Value
unfolding messages_in truthy as_dict
existing_messages (item v) =
    if truthy v then (elim (as_dict v) [ none ↦ list nil | some d ↦ messages_in d ]) else list nil
existing_messages absent = list nil
existing_messages failed = list nil

-- `new_message`
abbrev pub message : Value → Value
message content = dict (field "content" content end)

-- the dict that is stored
abbrev pub pending : List Value → Fields
pending messages = field "messages" (list (items_of messages)) end

module _ {S : Type 0} (st : Store S) (tid : String) where
  -- the first half of the call, up to the second request: none where `append` raises
  unfoldable pub read_pending : S → Option (List Value)
  unfolding existing_messages as_list
  read_pending s = as_list (existing_messages (st.read tid s))

  -- the second half
  unfoldable pub write_pending : List Value → Value → S → Bool × S
  unfolding items_of
  write_pending messages content s =
      elim (st.put tid (pending (messages ++ message content ∷ [])) s) [
        | none ↦ (false, s)
        | some s' ↦ (true, s')
      ]

  unfoldable pub queue_message_for_thread : Value → S → Bool × S
  unfolding read_pending write_pending
  queue_message_for_thread content s = elim (read_pending s) [
    | none ↦ (false, s)
    | some messages ↦ write_pending messages content s
  ]
