-- ===== src/Groups/Normalize.antt =====
-- `_normalize_groups`: what is kept of the groups that the model returned.
use loupfeed_agents.Common.{
  ℕ, String, Bool, ◌&&◌, not, List, [], ◌∷◌, ◌++◌, length, null, leb, if◌then◌else◌, mem_str,
  nonempty, strip,
}

-- `_DiffGroupModel`
pub record ModelGroup : Type 0 where
  pub title : String
  pub summary : String
  pub files : List String

-- `DiffGroup`
pub record DiffGroup : Type 0 where
  pub title : String
  pub summary : String
  pub files : List String

abbrev pub max_groups : ℕ
max_groups = 8

-- the loop over `group.files`: the paths that are picked, and `seen` behind it
unfoldable pub pick : List String → List String → List String → List String × List String
pick valid seen [] = ([], seen)
pick valid seen (path ∷ paths) =
    let new = mem_str path valid && not (mem_str path seen) in
    let (picked, seen') = pick valid (if new then path ∷ seen else seen) paths in
    ((if new then path ∷ picked else picked), seen')

unfoldable pub is_kept : ModelGroup → List String → Bool
is_kept g picked = nonempty (strip g.title) && not (null picked)

abbrev pub made : ModelGroup → List String → DiffGroup
made g picked = record { title = strip g.title; summary = strip g.summary; files = picked }

-- the loop over the groups
unfoldable pub normalize_from :
    List String → List String → List DiffGroup → List ModelGroup → List DiffGroup
unfolding pick is_kept strip
normalize_from valid seen groups [] = groups
normalize_from valid seen groups (g ∷ gs) =
    let (picked, seen') = pick valid seen g.files in
    let groups' = if is_kept g picked then groups ++ made g picked ∷ [] else groups in
    let rest = normalize_from valid seen' groups' gs in
    if is_kept g picked && leb max_groups (length groups') then groups' else rest

unfoldable pub normalize_groups : List ModelGroup → List String → List DiffGroup
unfolding normalize_from
normalize_groups groups files = normalize_from files [] [] groups
