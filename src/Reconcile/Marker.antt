-- ===== src/Reconcile/Marker.antt =====
-- The marker in the body of a review comment: `parse_review_comment_marker` of
-- agent/reviewer_publish.py.
use Prim.Native.String as S
use loupfeed_agents.Common.{
  ◌>>=◌, ◌==◌, code, String, ◌&&◌, not, Option, none, some, [], ◌∷◌, if◌then◌else◌, ◌⧺◌,
  strip_prefix, has_prefix, is_space, lstrip,
}
use loupfeed_agents.Json.{
  Value, Fields, get, has, as_dict, has_text, in_texts, text_or, is_int, null,
}

-- `\{.*?\}\s*-->`: the shortest text up to a brace with the end of the comment behind it
unfoldable pub take_group : String → String → Option String
unfolding has_prefix lstrip
take_group acc S.[] = none
take_group acc (S.◌∷◌ c s) =
    let rest = take_group (acc ⧺ S.◌∷◌ c S.[]) s in
    if code c == 125 && has_prefix "-->" (lstrip s) then some (acc ⧺ S.◌∷◌ c S.[]) else rest

group_from : String → Option String
unfolding take_group
group_from S.[] = none
group_from (S.◌∷◌ c s) = if code c == 123 then take_group "{" s else none

-- `\s+` in front of the brace
behind_spaces : String → Option String
unfolding group_from is_space lstrip
behind_spaces S.[] = none
behind_spaces (S.◌∷◌ c s) = if is_space c then group_from (lstrip s) else none

-- the group, where the expression matches at the start of the text
unfoldable pub marker_here : String → Option String
unfolding strip_prefix lstrip behind_spaces
marker_here s = do
  rest ← strip_prefix "<!--" s
  tail ← strip_prefix "open-swe-review-comment" (lstrip rest)
  behind_spaces tail

-- `_OPEN_SWE_REVIEW_COMMENT_MARKER_RE.search(body)`, with the group
unfoldable pub search_marker : String → Option String
unfolding marker_here
search_marker S.[] = none
search_marker (S.◌∷◌ c s) =
    let rest = search_marker s in elim (marker_here (S.◌∷◌ c s)) [ none ↦ rest | some g ↦ some g ]

pub record ReviewCommentMarker : Type 0 where
  pub id : String
  pub file_path : String
  pub start_line : Value
  pub end_line : Value
  pub side : String

-- `_optional_int`
unfoldable pub optional_int : Value → Value
unfolding is_int
optional_int v = if is_int v then v else null

unfoldable pub side_text : Fields → Option String
unfolding has get in_texts text_or
side_text payload =
    if not (has "side" payload)
    then some "RIGHT"
    else if in_texts (get "side" payload) ("LEFT" ∷ "RIGHT" ∷ [])
    then some (text_or (get "side" payload) "RIGHT")
    else none

unfoldable pub marker_of : Fields → Option ReviewCommentMarker
unfolding has_text get text_or side_text optional_int
marker_of payload = elim (side_text payload) [
  | none ↦ none
  | some side ↦
      if has_text (get "id" payload) && has_text (get "file_path" payload)
      then some (record {
        id = text_or (get "id" payload) "";
        file_path = text_or (get "file_path" payload) "";
        start_line = optional_int (get "start_line" payload);
        end_line = optional_int (get "end_line" payload);
        side = side;
      })
      else none
]

-- `json.loads` is a parameter: the value of a JSON text, or none for a text that is none.
unfoldable pub parse_review_comment_marker :
    (String → Option Value) → String → Option ReviewCommentMarker
unfolding search_marker as_dict marker_of
parse_review_comment_marker json_loads body = do
  group ← search_marker body
  value ← json_loads group
  payload ← as_dict value
  marker_of payload
