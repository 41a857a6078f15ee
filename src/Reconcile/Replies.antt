-- ===== src/Reconcile/Replies.antt =====
-- The comments of a review thread: the bot's own, and the human replies behind one of them.
use loupfeed_agents.Common.{
  String, Bool, true, false, ◌||◌, not, none, some, List, [], ◌∷◌, if◌then◌else◌, nonempty,
}
use loupfeed_agents.Json.{
  Value, ℤ, num_of, as_str, Fields, get, as_dict, as_list, in_texts, same_num,
}

-- `author in {"open-swe", "open-swe[bot]"}`
unfoldable pub is_open_swe_bot_comment : Fields → Bool
unfolding get in_texts
is_open_swe_bot_comment comment =
    in_texts (get "author" comment) ("open-swe" ∷ "open-swe[bot]" ∷ [])

-- `[item for item in value if isinstance(item, int)]`
unfoldable pub ints : List Value → List ℤ
unfolding num_of
ints [] = []
ints (v ∷ vs) = let rest = ints vs in elim (num_of v) [ none ↦ rest | some z ↦ z ∷ rest ]

-- `_int_list`
unfoldable pub int_list : Value → List ℤ
unfolding ints as_list
int_list v = elim (as_list v) [ none ↦ [] | some l ↦ ints l ]

unfoldable pub texts : List Value → List String
unfolding as_str
texts [] = []
texts (v ∷ vs) =
    let rest = texts vs in
    elim (as_str v) [ none ↦ rest | some s ↦ if nonempty s then s ∷ rest else rest ]

-- `_str_list`
unfoldable pub str_list : Value → List String
unfolding texts as_list
str_list v = elim (as_list v) [ none ↦ [] | some l ↦ texts l ]

-- `review_thread.get("comments")`, or none where that is no list
unfoldable pub comments_of : Fields → List Value
unfolding get as_list
comments_of thread = elim (as_list (get "comments" thread)) [ none ↦ [] | some l ↦ l ]

-- the loop over the comments, with `seen_bot_comment`
unfoldable pub replies_from : Value → Bool → List Value → List Fields
unfolding as_dict get same_num is_open_swe_bot_comment
replies_from bot seen [] = []
replies_from bot seen (v ∷ vs) =
    let rest = replies_from bot seen vs in
    let found = replies_from bot true vs in
    elim (as_dict v) [
      | none ↦ rest
      | some comment ↦
          if same_num (get "id" comment) bot
          then found
          else if not seen || is_open_swe_bot_comment comment
          then rest
          else comment ∷ rest
    ]

-- `_human_replies_after_bot_comment`
unfoldable pub human_replies_after_bot_comment : Fields → Value → List Fields
unfolding replies_from comments_of
human_replies_after_bot_comment thread bot = replies_from bot false (comments_of thread)
