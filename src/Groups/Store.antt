-- ===== src/Groups/Store.antt =====
-- `generate_diff_groups` and `maybe_generate_and_store_diff_groups`. The language model, the hash
-- and the clock are parameters, and so is the read of the thread's metadata, which may raise.
use loupfeed_agents.Common.{
  String, Bool, true, false, ◌&&◌, ◌||◌, not, Option, none, some, List, [], ◌∷◌, map, if◌then◌else◌,
  nonempty, is_some,
}
use loupfeed_agents.Json.{
  Value, str, list, dict, Fields, field, end, get, truthy, as_dict, as_list, eq_text, items_of,
}
use loupfeed_agents.Diff.Parse.{parse_unified_diff}
use loupfeed_agents.Groups.Normalize.{ModelGroup, DiffGroup, normalize_groups}

-- `_changed_files`
unfoldable pub changed_files : String → List String
unfolding parse_unified_diff
changed_files text = map (λ fd. fd.file) (parse_unified_diff text)

abbrev pub no_files : List String → Bool
no_files [] = true
no_files (f ∷ fs) = false

-- `generate_diff_groups`; `answer` is the model's, `none` where the call fails
unfoldable pub generate_diff_groups : String → Option (List ModelGroup) → Option (List DiffGroup)
unfolding changed_files normalize_groups
generate_diff_groups text answer = if no_files (changed_files text) then some [] else (elim answer [
  | none ↦ none
  | some groups ↦ some (normalize_groups groups (changed_files text))
])

unfoldable pub group_value : DiffGroup → Value
unfolding items_of
group_value g = dict (
    field "title" (str g.title) (
      field "summary" (str g.summary)
        (field "files" (list (items_of (map (λ f. str f) g.files))) end)))

-- `payload`
unfoldable pub payload : String → String → String → List DiffGroup → Fields
unfolding group_value items_of
payload head_sha signature now groups = field "head_sha" (str head_sha) (
    field "signature" (str signature) (
      field "generated_at" (str now)
        (field "groups" (list (items_of (map group_value groups))) end)))

-- the persisted groups are for this diff, and there are some
unfoldable pub is_current : String → Fields → Bool
unfolding get as_dict as_list eq_text truthy
is_current signature metadata = elim (as_dict (get "diff_groups" metadata)) [
  | none ↦ false
  | some existing ↦
      eq_text (get "signature" existing) signature
      && is_some (as_list (get "groups" existing))
      && truthy (get "groups" existing)
]

module _ (hash : String → String) (now : String) (thread_id head_sha : String) where
  -- the update of the metadata that is written, if any; what raises is caught and writes nothing
  unfoldable pub stored_update : String → Option Fields → Option (List ModelGroup) → Option Fields
  unfolding is_current generate_diff_groups payload
  stored_update text none answer = none
  stored_update text (some metadata) answer =
      if not (nonempty thread_id) || not (nonempty text) || is_current (hash text) metadata
      then none
      else (elim (generate_diff_groups text answer) [
        | none ↦ none
        | some groups ↦ some (
            field "kind" (str "reviewer")
              (field "diff_groups" (dict (payload head_sha (hash text) now groups)) end))
      ])
