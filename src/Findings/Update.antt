-- ===== src/Findings/Update.antt =====
-- The operations on findings: appending, field updates, the surface record, and interactions.
use loupfeed_agents.Common.{
  String, Bool, true, false, ◌&&◌, ◌||◌, Option, none, some, List, [], ◌∷◌, ◌++◌, any,
  if◌then◌else◌,
}
use loupfeed_agents.Json.{
  Value, null, bool, str, list, dict, Fields, field, end, get, put, update, setdefault, truthy,
  is_int, is_str, is_null, same_num, eq_text, as_dict, as_list, items_of,
}
use loupfeed_agents.Findings.Client.{Client}
use loupfeed_agents.Findings.Mutate.{Result, Mutated, mutate_findings, edit_first}

unfoldable pub append_mutator : Fields → List Fields → Mutated Fields
append_mutator finding findings = record {
  findings = findings ++ finding ∷ [];
  changed = true;
  captured = finding;
}

-- `finding.update(updates)`
unfoldable pub fields_edit : Fields → Fields → Fields × Bool
unfolding update
fields_edit updates f = (update f updates, true)

-- the state that a surface without one has
unfoldable pub surface_state : Fields → Value
unfolding get truthy is_int
surface_state f =
    if truthy (get "github_thread_resolved" f)
    then str "resolved"
    else if is_int (get "github_review_comment_id" f)
    then str "surfaced"
    else str "not_surfaced"

surface_start : Fields → String → Fields
unfolding get as_dict
surface_start f fid = elim (as_dict (get "surface" f)) [
  | some d ↦ d
  | none ↦ field "finding_id" (str fid) end
]

with_state : Fields → Fields → Fields
unfolding surface_state put
with_state f d = if truthy (get "state" d) then d else put "state" (surface_state f) d

-- `_coerce_surface`
unfoldable pub coerce_surface : Fields → String → Fields
unfolding surface_start with_state setdefault
coerce_surface f fid = setdefault "last_error" null (
    setdefault "last_github_sync_at" null (
      setdefault "surfaced_at_sha" null (
        setdefault "severity_threshold_at_publish" null (
          setdefault "github_review_thread_id" (get "github_review_thread_id" f) (
            setdefault "github_review_comment_id" (get "github_review_comment_id" f) (
              setdefault "github_review_id" (get "github_review_id" f)
                (with_state f (surface_start f fid))))))))

unfoldable pub put_if : Bool → String → Value → Fields → Fields
unfolding put
put_if b k v f = if b then put k v f else f

-- `_sync_legacy_surface_fields`
unfoldable pub sync_legacy_surface_fields : Fields → Fields → Fields
unfolding put_if get is_int is_null is_str eq_text
sync_legacy_surface_fields f surface =
    let review = get "github_review_id" surface in
    let comment = get "github_review_comment_id" surface in
    let thread = get "github_review_thread_id" surface in
    put_if (eq_text (get "state" surface) "resolved") "github_thread_resolved" (bool true) (
      put_if (is_str thread || is_null thread) "github_review_thread_id" thread (
        put_if (is_int comment || is_null comment) "github_review_comment_id" comment
          (put_if (is_int review || is_null review) "github_review_id" review f)))

-- the body of `update_finding_surface`
unfoldable pub surface_edit : String → Fields → Fields → Fields × Bool
unfolding coerce_surface sync_legacy_surface_fields update put
surface_edit fid updates f =
    let surface = update (coerce_surface f fid) updates in
    (sync_legacy_surface_fields (put "surface" (dict surface) f) surface, true)

-- `finding.get("interactions")`, or `[]` where that is no list
unfoldable pub interactions_of : Fields → List Value
unfolding get as_list
interactions_of f = elim (as_list (get "interactions" f)) [ none ↦ [] | some l ↦ l ]

-- `isinstance(item, dict) and item.get("github_comment_id") == github_comment_id`
unfoldable pub is_comment : Value → Value → Bool
unfolding as_dict get same_num
is_comment comment item = elim (as_dict item) [
  | none ↦ false
  | some d ↦ same_num (get "github_comment_id" d) comment
]

-- the body of `append_finding_interaction`
unfoldable pub interaction_edit : Fields → Fields → Fields × Bool
unfolding interactions_of is_comment is_int put items_of
interaction_edit interaction f =
    let comment = get "github_comment_id" interaction in
    let known = interactions_of f in
    if is_int comment && any (is_comment comment) known
    then (f, false)
    else (put "interactions" (list (items_of (known ++ dict interaction ∷ []))) f, true)

module _ {S : Type 0} (c : Client S) (tid : String) where
  unfoldable pub append_finding : Fields → S → Result Fields × S
  unfolding append_mutator mutate_findings
  append_finding finding = mutate_findings c tid (append_mutator finding)

  unfoldable pub update_finding_fields : String → Fields → S → Result (Option Fields) × S
  unfolding edit_first fields_edit mutate_findings
  update_finding_fields fid updates = mutate_findings c tid (edit_first fid (fields_edit updates))

  unfoldable pub update_finding_surface : String → Fields → S → Result (Option Fields) × S
  unfolding edit_first surface_edit mutate_findings
  update_finding_surface fid updates =
      mutate_findings c tid (edit_first fid (surface_edit fid updates))

  unfoldable pub append_finding_interaction : String → Fields → S → Result (Option Fields) × S
  unfolding edit_first interaction_edit mutate_findings
  append_finding_interaction fid interaction =
      mutate_findings c tid (edit_first fid (interaction_edit interaction))
