-- ===== src/Breaker/Streak.antt =====
-- `_sandbox_error_streak`, `_last_message_has_circuit_breaker_marker` and `before_model`.
use loupfeed_agents.Common.{
  ℕ, ◌+◌, String, Bool, true, false, Option, none, some, List, [], ◌∷◌, reverse, last?, leb, str_eq,
  if◌then◌else◌, is_infix, show_ℕ, ◌⧺◌,
}
use loupfeed_agents.Breaker.Message.{
  Kind, tool, human, system, other, text, Message, content_to_text, marker, recreated_text,
  unrecoverable_message, extract_sandbox_id,
}

pub data Reason : Type 0 where
  client_error recreated : Reason

-- `SandboxErrorStreak`
pub record Streak : Type 0 where
  pub reason : Reason
  pub sandbox_id : Option String
  pub count : ℕ

-- the variables of the loop
pub record Loop : Type 0 where
  pub reason : Option Reason
  pub sandbox_id : Option String
  pub count : ℕ

abbrev pub fresh : Loop
fresh = record { reason = none; sandbox_id = none; count = 0 }

-- behind the loop
unfoldable pub finish : Loop → Option Streak
finish s = elim s.reason [
  | none ↦ none
  | some r ↦ some (record { reason = r; sandbox_id = s.sandbox_id; count = s.count })
]

-- how one turn of the loop ends: on with the next message, `break`, or `return None`
pub data Turn : Type 0 where
  go : Loop → Turn
  stop : Turn
  give_up : Turn

same_id : Option String → String → Bool
same_id none i = false
same_id (some j) i = str_eq i j

tool_recreated : Loop → Turn
tool_recreated s = elim s.reason [
  | none ↦ go (record s { reason = some recreated; count = s.count + 1 })
  | some client_error ↦ stop
  | some recreated ↦ go (record s { count = s.count + 1 })
]

tool_failed : String → Loop → Turn
unfolding same_id
tool_failed i s = elim s.reason [
  | none ↦ go (record { reason = some client_error; sandbox_id = some i; count = s.count + 1 })
  | some recreated ↦ stop
  | some client_error ↦
      if same_id s.sandbox_id i then go (record s { count = s.count + 1 }) else stop
]

tool_turn : String → Loop → Turn
unfolding tool_recreated tool_failed
tool_turn t s =
    if is_infix recreated_text t then tool_recreated s else (elim (extract_sandbox_id t) [
      | none ↦ stop
      | some i ↦ if is_infix "SandboxClientError" t then tool_failed i s else stop
    ])

other_turn : Bool → String → Loop → Turn
other_turn ends t s = if is_infix marker t then give_up else if ends then stop else go s

-- the body of the loop
unfoldable pub turn : Kind → String → Loop → Turn
unfolding tool_turn other_turn
turn tool t s = tool_turn t s
turn human t s = other_turn true t s
turn system t s = other_turn true t s
turn other t s = other_turn false t s

-- the loop, over the messages from the newest to the oldest
unfoldable pub scan : Loop → List Message → Option Streak
unfolding turn finish content_to_text
scan s [] = finish s
scan s (m ∷ ms) = elim (turn m.kind (content_to_text m.content) s) [
  | go s' ↦ scan s' ms
  | stop ↦ finish s
  | give_up ↦ none
]

unfoldable pub sandbox_error_streak : List Message → Option Streak
unfolding scan
sandbox_error_streak messages = scan fresh (reverse messages)

unfoldable pub has_marker : Message → Bool
unfolding content_to_text
has_marker m = is_infix marker (content_to_text m.content)

-- `_last_message_has_circuit_breaker_marker`
unfoldable pub last_has_marker : List Message → Bool
unfolding has_marker
last_has_marker messages = elim (last? messages) [ none ↦ false | some m ↦ has_marker m ]

id_text : Option String → String
id_text none = "None"
id_text (some i) = i

detail : Streak → String
unfolding id_text
detail k = elim k.reason [
  | recreated ↦ show_ℕ k.count ⧺ " consecutive sandbox recreations did not recover tool execution"
  | client_error ↦
      show_ℕ k.count ⧺ (" consecutive sandbox tool failures against " ⧺ id_text k.sandbox_id)
]

-- the message that ends the run
unfoldable pub trip_message : Streak → Message
unfolding detail
trip_message k = record {
  kind = other;
  content = text (marker ⧺ (": " ⧺ (detail k ⧺ (". " ⧺ unrecoverable_message))));
}

-- `before_model`: `some m` jumps to the end with the message `m`
unfoldable pub before_model : ℕ → List Message → Option Message
unfolding last_has_marker sandbox_error_streak trip_message
before_model threshold messages =
    if last_has_marker messages then none else (elim (sandbox_error_streak messages) [
      | none ↦ none
      | some k ↦ if leb k.count threshold then none else some (trip_message k)
    ])
