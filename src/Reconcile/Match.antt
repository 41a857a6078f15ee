-- ===== src/Reconcile/Match.antt =====
-- The index of the review threads, and the threads that belong to a finding.
use loupfeed_agents.Common.{
  String, Bool, Option, none, some, List, [], ◌∷◌, ◌++◌, if◌then◌else◌, str_eq,
}
use loupfeed_agents.Json.{Value, ℤ, num_of, eq_ℤ, as_str, Fields, get, as_dict, has_text, text_or}
use loupfeed_agents.Reconcile.Marker.{ReviewCommentMarker, parse_review_comment_marker}
use loupfeed_agents.Reconcile.Replies.{is_open_swe_bot_comment, comments_of}

-- a dict, as the list of its items
module _ {K V : Type 0} (same : K → K → Bool) where
  abbrev pub assoc_get : K → List (K × V) → Option V
  assoc_get k [] = none
  assoc_get k ((j, v) ∷ d) = if same j k then some v else assoc_get k d

  abbrev pub assoc_put : K → V → List (K × V) → List (K × V)
  assoc_put k v [] = (k, v) ∷ []
  assoc_put k v ((j, w) ∷ d) = if same j k then (j, v) ∷ d else (j, w) ∷ assoc_put k v d

-- `ReviewThreadMatch`
abbrev pub Match : Type 0
Match = Fields × Option ℤ

pub record Index : Type 0 where
  pub by_thread_id : List (String × Fields)
  pub by_comment_id : List (ℤ × Fields)
  pub by_marker_id : List (String × List Match)

abbrev pub no_index : Index
no_index = record { by_thread_id = []; by_comment_id = []; by_marker_id = [] }

-- `by_marker_id.setdefault(id, []).append(m)`
add_match : String → Match → List (String × List Match) → List (String × List Match)
add_match k m [] = (k, m ∷ []) ∷ []
add_match k m ((j, ms) ∷ d) =
    if str_eq j k then (j, ms ++ m ∷ []) ∷ d else (j, ms) ∷ add_match k m d

module _ (json_loads : String → Option Value) where
  -- the marker of the comment, where it is the bot's and its body is a text
  marker_in : Fields → Option ReviewCommentMarker
  unfolding as_str get is_open_swe_bot_comment parse_review_comment_marker
  marker_in comment = elim (as_str (get "body" comment)) [
    | none ↦ none
    | some body ↦
        if is_open_swe_bot_comment comment
        then parse_review_comment_marker json_loads body
        else none
  ]

  -- one turn of the loop over the comments
  unfoldable pub index_comment : Fields → Value → Index → Index
  unfolding as_dict num_of get eq_ℤ marker_in add_match
  index_comment thread v idx = elim (as_dict v) [
    | none ↦ idx
    | some comment ↦ elim (num_of (get "id" comment)) [
      | none ↦ idx
      | some z ↦
          let seen = record idx { by_comment_id = assoc_put eq_ℤ z thread idx.by_comment_id } in
          elim (marker_in comment) [
            | none ↦ seen
            | some m ↦ record seen {
              by_marker_id = add_match m.id (thread, some z) seen.by_marker_id;
            }
          ]
    ]
  ]

  index_comments : Fields → List Value → Index → Index
  unfolding index_comment
  index_comments thread [] idx = idx
  index_comments thread (v ∷ vs) idx = index_comments thread vs (index_comment thread v idx)

  index_thread : Fields → Index → Index
  unfolding index_comments get has_text text_or comments_of
  index_thread thread idx =
      let named =
        if has_text (get "id" thread)
        then record idx {
          by_thread_id = assoc_put str_eq (text_or (get "id" thread) "") thread idx.by_thread_id;
        }
        else idx in
      index_comments thread (comments_of thread) named

  index_from : List Fields → Index → Index
  unfolding index_thread
  index_from [] idx = idx
  index_from (t ∷ ts) idx = index_from ts (index_thread t idx)

  -- `_index_review_threads`; the three dicts do not depend on each other
  unfoldable pub index_review_threads : List Fields → Index
  unfolding index_from
  index_review_threads threads = index_from threads no_index

-- `by_marker_id.get(finding_id)`, where it is there and not empty
marker_match : Fields → Index → List Match
unfolding as_str get
marker_match finding idx = elim (as_str (get "id" finding)) [
  | none ↦ []
  | some fid ↦ elim (assoc_get str_eq fid idx.by_marker_id) [ none ↦ [] | some ms ↦ ms ]
]

thread_match : Fields → Index → List Match
unfolding has_text text_or num_of get
thread_match finding idx =
    if has_text (get "github_review_thread_id" finding)
    then (elim (assoc_get str_eq (text_or (get "github_review_thread_id" finding) "")
        idx.by_thread_id) [
          | none ↦ []
          | some t ↦ (t, num_of (get "github_review_comment_id" finding)) ∷ []
        ])
    else []

comment_match : Fields → Index → List Match
unfolding num_of get eq_ℤ
comment_match finding idx = elim (num_of (get "github_review_comment_id" finding)) [
  | none ↦ []
  | some z ↦ elim (assoc_get eq_ℤ z idx.by_comment_id) [ none ↦ [] | some t ↦ (t, some z) ∷ [] ]
]

abbrev or_else : List Match → List Match → List Match
or_else [] b = b
or_else (m ∷ ms) b = m ∷ ms

-- `_find_review_threads_for_finding`
unfoldable pub find_review_threads_for_finding : Fields → Index → List Match
unfolding marker_match thread_match comment_match
find_review_threads_for_finding finding idx =
    or_else (marker_match finding idx)
      (or_else (thread_match finding idx) (comment_match finding idx))
