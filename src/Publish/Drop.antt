-- ===== src/Publish/Drop.antt =====
-- `_filter_against_pr_diff` and `_resolve_diff_line_set` of agent/tools/publish_review.py: the
-- findings that GitHub can anchor.
use loupfeed_agents.Common.{
  String, Bool, false, ◌&&◌, Option, none, some, List, [], ◌∷◌, ltb, if◌then◌else◌,
}
use loupfeed_agents.Json.{ℤ, pos, negsuc, num_of, as_str, Fields, get, is_null, is_int, eq_text}
use loupfeed_agents.Findings.Mutate.{Result, ◌>>=◌, pure}
use loupfeed_agents.Publish.Stamp.{with_id}
use loupfeed_agents.Diff.Anchor.{Side, LineSet, is_range_in_diff, compute_diff_line_set}

-- `is_range_in_diff` on any numbers: the lines of the diff are positive
unfoldable pub is_int_range_in_diff : LineSet → String → Option ℤ → Option ℤ → Side → Bool
unfolding is_range_in_diff
is_int_range_in_diff lines file none none side = is_range_in_diff lines file none none side
is_int_range_in_diff lines file none (some e) side = false
is_int_range_in_diff lines file (some s) none side = false
is_int_range_in_diff lines file (some (pos m)) (some (pos n)) side =
    is_range_in_diff lines file (some m) (some n) side
is_int_range_in_diff lines file (some (pos m)) (some (negsuc n)) side =
    is_range_in_diff lines file (some 1) (some 0) side
is_int_range_in_diff lines file (some (negsuc m)) (some (pos n)) side = false
is_int_range_in_diff lines file (some (negsuc m)) (some (negsuc n)) side =
    ltb m n && is_range_in_diff lines file (some 1) (some 0) side

-- the range of a finding, or the line of its payload
unfoldable pub range_of : Fields → Fields → Option ℤ × Option ℤ
unfolding get num_of is_null is_int
range_of finding payload =
    let start = num_of (get "start_line" finding) in
    let line = num_of (get "line" payload) in
    if is_null (get "end_line" finding) && is_int (get "line" payload)
    then (if is_null (get "start_line" finding) then line else start, line)
    else (start, num_of (get "end_line" finding))

unfoldable pub finding_side : Fields → Side
unfolding get eq_text
finding_side finding = if eq_text (get "side" finding) "LEFT" then Side.left else Side.right

-- the test of the loop
unfoldable pub is_anchored : LineSet → Fields → Fields → Bool
unfolding range_of finding_side is_int_range_in_diff as_str get
is_anchored lines finding payload = elim (as_str (get "path" payload)) [
  | none ↦ false
  | some path ↦
      is_int_range_in_diff lines path (range_of finding payload).0 (range_of finding payload).1
        (finding_side finding)
]

-- the findings with an anchor in the diff, and the ids of the others
unfoldable pub split_anchored :
    LineSet → List (Fields × Fields) → List (Fields × Fields) × List String
unfolding is_anchored with_id as_str get
split_anchored lines [] = ([], [])
split_anchored lines ((finding, payload) ∷ ps) =
    let rest = split_anchored lines ps in
    if is_anchored lines finding payload
    then ((finding, payload) ∷ rest.0, rest.1)
    else (rest.0, with_id (as_str (get "id" finding)) rest.1)

unfoldable pub line_set_of : Option String → Option LineSet
unfolding compute_diff_line_set
line_set_of none = none
line_set_of (some text) = some (compute_diff_line_set text)

-- with no line set, everything stays
unfoldable pub filter_against :
    Option LineSet → List (Fields × Fields) → List (Fields × Fields) × List String
unfolding split_anchored
filter_against none pairs = (pairs, [])
filter_against (some lines) pairs = split_anchored lines pairs

module _ {S : Type 0} (fetch_pr_diff : S → Result (Option String) × S) where
  -- `_resolve_diff_line_set`; the set in the configuration, where it has one
  unfoldable pub resolve_diff_line_set : Option LineSet → S → Result (Option LineSet) × S
  unfolding line_set_of
  resolve_diff_line_set (some cached) = pure (some cached)
  resolve_diff_line_set none = do text ← fetch_pr_diff; pure (line_set_of text)

  -- `_filter_against_pr_diff`
  unfoldable pub filter_against_pr_diff :
      Option LineSet
      → List (Fields × Fields)
      → S
      → Result (List (Fields × Fields) × List String) × S
  unfolding resolve_diff_line_set filter_against
  filter_against_pr_diff cached pairs = do
    lines ← resolve_diff_line_set cached
    pure (filter_against lines pairs)
