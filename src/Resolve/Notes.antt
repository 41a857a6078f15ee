-- ===== src/Resolve/Notes.antt =====
-- The note of a resolution, and the ids of the comments and threads of a finding.
use loupfeed_agents.Common.{
  String, Bool, false, ◌&&◌, ◌||◌, Option, none, some, List, [], ◌∷◌, any, if◌then◌else◌, nonempty,
  str_eq, strip, ◌⧺◌, mem_str,
}
use loupfeed_agents.Json.{Value, ℤ, num_of, Fields, get, as_dict, as_list, is_int, has_text, truthy}
use loupfeed_agents.Findings.Thread.{text_of}
use loupfeed_agents.Reconcile.Replies.{int_list, str_list}
use loupfeed_agents.Reconcile.Sync.{mem_int}

-- `_normalize_note`
unfoldable pub normalize_note : Option String → Option String
unfolding strip
normalize_note none = none
normalize_note (some note) = let s = strip note in if nonempty s then some s else none

-- the first candidate that is a text with more than white space
first_body : List (Option String) → Option String
unfolding normalize_note
first_body [] = none
first_body (c ∷ cs) =
    let rest = first_body cs in elim (normalize_note c) [ none ↦ rest | some s ↦ some s ]

-- `_resolution_body`
unfoldable pub resolution_body : Fields → Option String → Option String
unfolding first_body get text_of
resolution_body finding note =
    first_body (
      note
      ∷ text_of (get "resolution_note" finding)
      ∷ text_of (get "last_update_note" finding)
      ∷ [])

unfoldable pub headed : String → Option String → Option String
headed status none = none
headed status (some body) =
    if str_eq status "resolved"
    then some ("✅ **Resolved**: " ⧺ body)
    else some ("❌ **Dismissed**: " ⧺ body)

-- `render_resolution_comment`
unfoldable pub render_resolution_comment : Fields → String → Option String → Option String
unfolding resolution_body headed
render_resolution_comment finding status note = headed status (resolution_body finding note)

-- `_comment_ids_for_finding`
unfoldable pub comment_ids_for_finding : Fields → List ℤ
unfolding int_list num_of mem_int get
comment_ids_for_finding finding =
    let ids = int_list (get "github_review_comment_ids" finding) in
    elim (num_of (get "github_review_comment_id" finding)) [
      | none ↦ ids
      | some z ↦ if mem_int z ids then ids else z ∷ ids
    ]

-- `_thread_ids_for_finding`
unfoldable pub thread_ids_for_finding : Fields → List String
unfolding str_list text_of get
thread_ids_for_finding finding =
    let ids = str_list (get "github_review_thread_ids" finding) in
    elim (text_of (get "github_review_thread_id" finding)) [
      | none ↦ ids
      | some t ↦ if mem_str t ids then ids else t ∷ ids
    ]

-- the repository and the pull request of the run: `owner`, `name` and a numeric `pr_number`
unfoldable pub has_target : Fields → Bool
unfolding get as_dict truthy is_int
has_target configurable = elim (as_dict (get "repo" configurable)) [
  | none ↦ false
  | some repo ↦
      truthy (get "owner" repo) && truthy (get "name" repo) && is_int (get "pr_number" configurable)
]

-- a surface record that names a comment or a thread
shows_surface : Fields → Bool
unfolding get as_dict is_int has_text
shows_surface finding = elim (as_dict (get "surface" finding)) [
  | none ↦ false
  | some d ↦ is_int (get "github_review_comment_id" d) || has_text (get "github_review_thread_id" d)
]

-- `any(test(item) for item in v)`, for a list
any_in : (Value → Bool) → Value → Bool
unfolding as_list
any_in test v = elim (as_list v) [ none ↦ false | some l ↦ any test l ]

-- `_has_published_github_surface`
unfoldable pub has_published_github_surface : Fields → Bool
unfolding shows_surface any_in get is_int has_text
has_published_github_surface finding =
    shows_surface finding
    || is_int (get "github_review_comment_id" finding)
    || has_text (get "github_review_thread_id" finding)
    || any_in is_int (get "github_review_comment_ids" finding)
    || any_in has_text (get "github_review_thread_ids" finding)
