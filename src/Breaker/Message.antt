-- ===== src/Breaker/Message.antt =====
-- The messages that the circuit breaker reads, and the texts that it looks for in them. A message's
-- content is a text or a list of blocks, each a text or a dict with an optional "text" entry, which
-- is a text: the types that LangChain documents. The sandbox ids are ASCII.
use Prim.Native.Char.{Char}
use Prim.Native.String.{[], ◌∷◌}
use mathlib.Core.List as L
use loupfeed_agents.Common.{
  code, String, Bool, false, ◌&&◌, ◌||◌, not, Option, none, some, List, leb, ◌==◌, if◌then◌else◌,
  ◌⧺◌, join, strip_prefix,
}

pub data Block : Type 0 where
  plain : String → Block
  part : Option String → Block

pub data Content : Type 0 where
  text : String → Content
  blocks : List Block → Content

-- the classes and types that the code tells apart; `other` is a model's message
pub data Kind : Type 0 where
  tool human system other : Kind

pub record Message : Type 0 where
  pub kind : Kind
  pub content : Content

block_text : Block → String
block_text (plain s) = s
block_text (part none) = ""
block_text (part (some s)) = s

block_texts : List Block → List String
unfolding block_text
block_texts L.[] = L.[]
block_texts (L.◌∷◌ b bs) = L.◌∷◌ (block_text b) (block_texts bs)

-- `_content_to_text`
unfoldable pub content_to_text : Content → String
unfolding block_texts
content_to_text (text s) = s
content_to_text (blocks bs) = join " " (block_texts bs)

abbrev pub marker : String
marker = "Sandbox circuit breaker triggered"

abbrev pub recreated_text : String
recreated_text = "sandbox_recreated_after_client_error"

abbrev pub unrecoverable_message : String
unrecoverable_message = "Sandbox became unrecoverable mid-task. Please retrigger."

unfoldable pub is_alnum : Char → Bool
is_alnum c =
    let n = code c in
    (leb b'0' n && leb n b'9') || (leb b'A' n && leb n b'Z') || (leb b'a' n && leb n b'z')

is_word : Char → Bool
unfolding is_alnum
is_word c = is_alnum c || code c == b'_'

is_id : Char → Bool
unfolding is_alnum
is_id c = is_alnum c || code c == b'-'

-- `\b` behind the character `c`, before the text `s`
boundary : Char → String → Bool
unfolding is_word
boundary c [] = is_word c
boundary c (d ∷ s) = not (is_word c) && is_word d || is_word c && not (is_word d)

-- `[A-Za-z0-9-]+\b`: the longest run that ends at a boundary
unfoldable pub take_id : String → Option String
unfolding is_id boundary
take_id [] = none
take_id (c ∷ s) =
    if is_id c
    then (elim (take_id s) [
      | some r ↦ some (c ∷ r)
      | none ↦ if boundary c s then some (c ∷ []) else none
    ])
    else none

-- `\bsb-[A-Za-z0-9-]+\b` at the front of `s`, where no word character stands before it
id_here : String → Option String
unfolding take_id
id_here s = elim (strip_prefix "sb-" s) [
  | none ↦ none
  | some r ↦ elim (take_id r) [ none ↦ none | some i ↦ some ("sb-" ⧺ i) ]
]

-- `after_word` tells whether a word character stands before the text
find_id : Bool → String → Option String
unfolding id_here is_word
find_id after_word [] = none
find_id after_word (c ∷ s) =
    let rest = find_id (is_word c) s in
    if after_word then rest else elim (id_here (c ∷ s)) [ some i ↦ some i | none ↦ rest ]

-- `_extract_sandbox_id`
unfoldable pub extract_sandbox_id : String → Option String
unfolding find_id
extract_sandbox_id = find_id false
