-- ===== src/Publish/Stamp.antt =====
-- What a publication stores on the findings: `_record_review_publication` and the functions that it
-- calls, of agent/tools/publish_review.py.
use loupfeed_agents.Common.{
  String, Bool, true, false, ◌&&◌, ◌||◌, not, Option, none, some, List, [], ◌∷◌, ◌++◌,
  if◌then◌else◌, nonempty, str_eq,
}
use loupfeed_agents.Json.{
  Value, int, str, dict, ℤ, num_of, same_num, as_str, Fields, get, put, truthy, text_or, in_texts,
}
use loupfeed_agents.Findings.Client.{Client}
use loupfeed_agents.Findings.Mutate.{Result, ◌>>=◌, pure, list_findings, replace_findings}
use loupfeed_agents.Findings.Update.{coerce_surface}
use loupfeed_agents.Reconcile.Marker.{parse_review_comment_marker}
use loupfeed_agents.Reconcile.Match.{assoc_get, assoc_put}
use loupfeed_agents.Reconcile.Replies.{int_list}
use loupfeed_agents.Reconcile.Sync.{Synced, mem_int, int_items}

-- the comment of each finding, by the id of the finding
abbrev pub Comments : Type 0
Comments = List (String × ℤ)

-- the id and the marker of a comment that GitHub returned
unfoldable pub comment_of : (String → Option Value) → Fields → Option (String × ℤ)
unfolding as_str num_of get parse_review_comment_marker
comment_of json_loads comment = elim (as_str (get "body" comment)) [
  | none ↦ none
  | some body ↦ elim (num_of (get "id" comment)) [
    | none ↦ none
    | some z ↦ elim (parse_review_comment_marker json_loads body) [
      | none ↦ none
      | some m ↦ some (m.id, z)
    ]
  ]
]

unfoldable pub noted : Option (String × ℤ) → Comments → Comments
noted none d = d
noted (some (k, z)) d = assoc_put str_eq k z d

-- `by_marker_id`
unfoldable pub by_marker_id : (String → Option Value) → List Fields → Comments → Comments
unfolding comment_of noted
by_marker_id json_loads [] d = d
by_marker_id json_loads (r ∷ rs) d = by_marker_id json_loads rs (noted (comment_of json_loads r) d)

unfoldable pub known : Comments → Option String → Comments → Comments
known markers none d = d
known markers (some fid) d = elim (assoc_get str_eq fid markers) [
  | none ↦ d
  | some z ↦ assoc_put str_eq fid z d
]

-- the loop over the findings that were posted
unfoldable pub posted_ids : Comments → List Fields → Comments → Comments
unfolding known as_str get
posted_ids markers [] d = d
posted_ids markers (f ∷ fs) d = posted_ids markers fs (known markers (as_str (get "id" f)) d)

-- `_comment_id_by_finding_id`
unfoldable pub comment_id_by_finding_id :
    (String → Option Value) → List Fields → List Fields → Comments
unfolding by_marker_id posted_ids
comment_id_by_finding_id json_loads posted records =
    posted_ids (by_marker_id json_loads records []) posted []

-- an id in front, where it is a text
unfoldable pub with_id : Option String → List String → List String
with_id none ids = ids
with_id (some fid) ids = fid ∷ ids

-- the ids of the findings that were posted
unfoldable pub finding_ids : List Fields → List String
unfolding with_id as_str get
finding_ids [] = []
finding_ids (f ∷ fs) = with_id (as_str (get "id" f)) (finding_ids fs)

-- the turn of `_apply_review_id`
unfoldable pub stamp_review : List String → ℤ → Fields → Synced
unfolding in_texts get same_num put coerce_surface text_or
stamp_review ids review f =
    let g = put "github_review_id" (int review) f in
    if in_texts (get "id" f) ids && not (same_num (get "github_review_id" f) (int review))
    then (
      put "surface"
          (dict (put "github_review_id" (int review) (coerce_surface g (text_or (get "id" f) ""))))
          g,
      true,
    )
    else (f, false)

unfoldable pub with_comment : ℤ → Fields → Fields
unfolding put int_list get mem_int
with_comment z f =
    let g = put "github_review_comment_id" (int z) f in
    let ids = int_list (get "github_review_comment_ids" g) in
    if mem_int z ids then g else put "github_review_comment_ids" (int_items (ids ++ z ∷ [])) g

-- `last_confirmed_sha or first_seen_sha`
shown_sha : Fields → Value
unfolding get truthy
shown_sha f =
    if truthy (get "last_confirmed_sha" f)
    then get "last_confirmed_sha" f
    else get "first_seen_sha" f

unfoldable pub with_surface : ℤ → String → Fields → Fields
unfolding put get coerce_surface shown_sha
with_surface z fid f =
    put "surface"
      (dict (
        put "surfaced_at_sha" (shown_sha f) (
          put "severity_threshold_at_publish" (get "severity" f) (
            put "github_review_comment_id" (int z)
              (put "state" (str "surfaced") (coerce_surface f fid))))))
      f

unfoldable pub with_run : String → Fields → Fields
unfolding put
with_run run f = if nonempty run then put "github_review_run_id" (str run) f else f

unfoldable pub stamped : String → String → Option ℤ → Fields → Synced
unfolding with_comment with_surface with_run
stamped run fid none f = (f, false)
stamped run fid (some z) f = (with_run run (with_surface z fid (with_comment z f)), true)

-- the comment that belongs to a finding
unfoldable pub comment_for : Comments → Fields → Option ℤ
unfolding as_str get
comment_for comments f = elim (as_str (get "id" f)) [
  | none ↦ none
  | some fid ↦ assoc_get str_eq fid comments
]

-- the turn of `_apply_comment_ids`; `run` is empty where there is no run
unfoldable pub stamp_comment : Comments → String → Fields → Synced
unfolding comment_for stamped text_or get
stamp_comment comments run f = stamped run (text_or (get "id" f) "") (comment_for comments f) f

-- a loop over the findings, and whether one of them has changed
unfoldable pub stamp_all : (Fields → Synced) → List Fields → List Fields × Bool
stamp_all stamp [] = ([], false)
stamp_all stamp (f ∷ fs) =
    let rest = stamp_all stamp fs in ((stamp f).0 ∷ rest.0, (stamp f).1 || rest.1)

module _ {S : Type 0} (c : Client S) (tid : String) where
  unfoldable pub store_changed : List Fields × Bool → S → Result (Unit {0}) × S
  unfolding replace_findings
  store_changed (findings, changed) = if changed then replace_findings c tid findings else pure tt

  -- `_record_review_publication`
  unfoldable pub record_review_publication :
      (String → Option Value) → ℤ → List Fields → List Fields → String → S → Result (Unit {0}) × S
  unfolding list_findings finding_ids comment_id_by_finding_id stamp_review stamp_comment stamp_all
      store_changed
  record_review_publication json_loads review posted records run = do
    latest ← list_findings c tid
    let reviewed = stamp_all (stamp_review (finding_ids posted) review) latest
    let commented =
        stamp_all (stamp_comment (comment_id_by_finding_id json_loads posted records) run)
          reviewed.0
    store_changed (commented.0, commented.1 || reviewed.1)
