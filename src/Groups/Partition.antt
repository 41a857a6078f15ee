-- ===== src/Groups/Partition.antt =====
-- The groups that are kept are disjoint parts of the changed files.
use loupfeed_agents.Common.{
  leb-false, ◌+◌, ◌≤◌, ◌<◌, String, ◌≡◌, ◌≢◌, refl, Bool, true, false, ◌&&◌, ◌||◌, not, List, [],
  ◌∷◌, ◌++◌, length, leb, mem_str, nonempty, arith, eq_iff, str_eq, All, All-append, Bool-cases,
  inl, inr, length-append, append_assoc, append-nil, &&-eq-true,
}
use loupfeed_agents.Groups.Normalize.{
  ModelGroup, DiffGroup, max_groups, pick, is_kept, made, normalize_from, normalize_groups,
}

abbrev pub Distinct : List String → Type 0
Distinct [] = Unit
Distinct (x ∷ xs) = (mem_str x xs ≡ false) × Distinct xs

abbrev pub all_files : List DiffGroup → List String
all_files [] = []
all_files (g ∷ gs) = g.files ++ all_files gs

-- A group that may be shown.
pub record IsGroup (valid : List String) (g : DiffGroup) : Type 0 where
  pub titled : nonempty g.title ≡ true
  pub filled : g.files ≢ []
  pub known : All (λ path. mem_str path valid ≡ true) g.files

pub mem-append :
    (x : String) (xs ys : List String) → mem_str x (xs ++ ys) ≡ (mem_str x xs || mem_str x ys)
mem-append x [] ys = refl
mem-append x (y ∷ xs) ys = ground (arith, mem-append x xs ys)

-- What picking does to the set of seen paths.
pub record Picks (valid seen : List String) (r : List String × List String) : Type 0 where
  pub known : All (λ path. mem_str path valid ≡ true) r.0
  pub distinct : Distinct r.0
  pub new : (x : String) → mem_str x r.0 ≡ true → mem_str x seen ≡ false
  pub seen_picked : (x : String) → mem_str x r.1 ≡ (mem_str x seen || mem_str x r.0)

pick_new :
    (valid seen : List String) (p : String) (ps : List String)
    → (mem_str p valid && not (mem_str p seen)) ≡ true
    → pick valid seen (p ∷ ps) ≡ (p ∷ (pick valid (p ∷ seen) ps).0, (pick valid (p ∷ seen) ps).1)
unfolding pick
pick_new valid seen p ps h = rw h

pick_old :
    (valid seen : List String) (p : String) (ps : List String)
    → (mem_str p valid && not (mem_str p seen)) ≡ false
    → pick valid seen (p ∷ ps) ≡ pick valid seen ps
unfolding pick
pick_old valid seen p ps h = rw h

Picks-new :
    (valid seen : List String) (p : String) (r : List String × List String)
    → (mem_str p valid && not (mem_str p seen)) ≡ true
    → Picks valid (p ∷ seen) r
    → Picks valid seen (p ∷ r.0, r.1)
Picks-new valid seen p (xs, seen') h i = record {
  known = ((&&-eq-true _ _ h).0, i.known);
  distinct = (fresh_path (mem_str p xs) refl, i.distinct);
  new = λ x m. elim (Bool-cases (str_eq x p)) [
    | inl same ↦ rw ((eq_iff x p).0 same) (ground arith)
    | inr other ↦ ground (arith, i.new x)
  ];
  seen_picked = λ x. ground (arith, i.seen_picked x);
}
  where
    fresh_path : (b : Bool) → mem_str p xs ≡ b → b ≡ false
    fresh_path false e = refl
    fresh_path true e = ground (arith, i.new p e, eq_iff p p)

pub pick-Picks : (valid seen paths : List String) → Picks valid seen (pick valid seen paths)
pick-Picks valid seen [] =
    unfold pick in
    record { known = tt; distinct = tt; new = λ x h. cc; seen_picked = λ x. ground arith }
pick-Picks valid seen (p ∷ ps) = elim (Bool-cases (mem_str p valid && not (mem_str p seen))) [
  | inl new ↦
      rw (pick_new valid seen p ps new)
        (Picks-new valid seen p _ new (pick-Picks valid (p ∷ seen) ps))
  | inr old ↦ rw (pick_old valid seen p ps old) (pick-Picks valid seen ps)
]

-- The invariant of the loop over the groups.
record IsPartial (valid seen : List String) (groups : List DiffGroup) : Type 0 where
  groups_fit : All (IsGroup valid) groups
  distinct : Distinct (all_files groups)
  seen_all : (x : String) → mem_str x (all_files groups) ≡ true → mem_str x seen ≡ true
  room : length groups < max_groups

all_files-append : (gs hs : List DiffGroup) → all_files (gs ++ hs) ≡ all_files gs ++ all_files hs
all_files-append [] hs = refl
all_files-append (g ∷ gs) hs = rw (all_files-append gs hs, append_assoc)

Distinct-append :
    (xs ys : List String)
    → Distinct xs
    → Distinct ys
    → ((x : String) → mem_str x xs ≡ true → mem_str x ys ≡ false)
    → Distinct (xs ++ ys)
Distinct-append [] ys dx dy apart = dy
Distinct-append (x ∷ xs) ys dx dy apart = (
  ground (arith, mem-append x xs ys, dx.0, apart x, eq_iff x x),
  Distinct-append xs ys dx.1 dy (λ y h. ground (arith, apart y, h)),
)

-- What is promised of the result.
pub record IsPartition (valid : List String) (groups : List DiffGroup) : Type 0 where
  pub groups_fit : All (IsGroup valid) groups
  pub distinct : Distinct (all_files groups)
  pub bounded : length groups ≤ max_groups

made-IsGroup :
    (valid : List String) (g : ModelGroup) (picked : List String)
    → is_kept g picked ≡ true
    → All (λ path. mem_str path valid ≡ true) picked
    → IsGroup valid (made g picked)
unfolding is_kept
made-IsGroup valid g [] h k = ground (arith, h)
made-IsGroup valid g (p ∷ ps) h k = record {
  titled = (&&-eq-true _ _ h).0;
  filled = λ e. cc;
  known = k;
}

pub all_files-made :
    (groups : List DiffGroup) (g : ModelGroup) (picked : List String)
    → all_files (groups ++ made g picked ∷ []) ≡ all_files groups ++ picked
all_files-made groups g picked = rw (all_files-append groups (made g picked ∷ []), append-nil)

-- One kept group more.
module _ (valid seen : List String) (groups : List DiffGroup) (i : IsPartial valid seen groups)
    (r : List String × List String) (p : Picks valid seen r) where
  more-fit :
      (g : ModelGroup) → is_kept g r.0 ≡ true → All (IsGroup valid) (groups ++ made g r.0 ∷ [])
  more-fit g h =
      All-append (IsGroup valid) groups _ i.groups_fit (made-IsGroup valid g r.0 h p.known, tt)

  apart : (x : String) → mem_str x (all_files groups) ≡ true → mem_str x r.0 ≡ false
  apart x h = elim (Bool-cases (mem_str x r.0)) [
    | inl again ↦ ground (arith, p.new x again, i.seen_all x h)
    | inr fine ↦ fine
  ]

  more-Distinct : (g : ModelGroup) → Distinct (all_files (groups ++ made g r.0 ∷ []))
  more-Distinct g =
      rw (all_files-made groups g r.0)
        (Distinct-append (all_files groups) r.0 i.distinct p.distinct apart)

  more-seen :
      (g : ModelGroup) (x : String)
      → mem_str x (all_files (groups ++ made g r.0 ∷ [])) ≡ true
      → mem_str x r.1 ≡ true
  more-seen g x h =
      let h' : mem_str x (all_files groups ++ r.0) ≡ true = rw (all_files-made groups g r.0) at h in
      ground (arith, h', mem-append x (all_files groups) r.0, i.seen_all x, p.seen_picked x)

  length-more : (g : ModelGroup) → length (groups ++ made g r.0 ∷ []) ≡ length groups + 1
  length-more g = length-append groups (made g r.0 ∷ [])

  same-seen : (x : String) → mem_str x (all_files groups) ≡ true → mem_str x r.1 ≡ true
  same-seen x h = ground (arith, i.seen_all x h, p.seen_picked x)

-- The turns of the loop, as equations.
module _ (valid seen : List String) (groups : List DiffGroup) (g : ModelGroup)
    (gs : List ModelGroup) where
  pub normalize_skip :
      is_kept g (pick valid seen g.files).0 ≡ false
      → normalize_from valid seen groups (g ∷ gs)
        ≡ normalize_from valid (pick valid seen g.files).1 groups gs
  unfolding normalize_from
  normalize_skip h = rw h

  pub normalize_last :
      is_kept g (pick valid seen g.files).0 ≡ true
      → leb max_groups (length (groups ++ made g (pick valid seen g.files).0 ∷ [])) ≡ true
      → normalize_from valid seen groups (g ∷ gs)
        ≡ groups ++ made g (pick valid seen g.files).0 ∷ []
  unfolding normalize_from
  normalize_last h full = rw h (rw full)

  pub normalize_keep :
      is_kept g (pick valid seen g.files).0 ≡ true
      → leb max_groups (length (groups ++ made g (pick valid seen g.files).0 ∷ [])) ≡ false
      → normalize_from valid seen groups (g ∷ gs)
        ≡ normalize_from valid
            (pick valid seen g.files).1
            (groups ++ made g (pick valid seen g.files).0 ∷ [])
            gs
  unfolding normalize_from
  normalize_keep h room = rw h (rw room)

normalize_from-IsPartition :
    (valid seen : List String) (groups : List DiffGroup) (gs : List ModelGroup)
    → IsPartial valid seen groups
    → IsPartition valid (normalize_from valid seen groups gs)
normalize_from-IsPartition valid seen groups [] i =
    unfold normalize_from in
    record { groups_fit = i.groups_fit; distinct = i.distinct; bounded = omega (arith, i.room) }
normalize_from-IsPartition valid seen groups (g ∷ gs) i =
    let r = pick valid seen g.files in
    let p : Picks valid seen r = pick-Picks valid seen g.files in
    elim (Bool-cases (is_kept g r.0)) [
      | inr dropped ↦ rw (normalize_skip valid seen groups g gs dropped) (
          normalize_from-IsPartition valid r.1 groups gs (record {
            groups_fit = i.groups_fit;
            distinct = i.distinct;
            seen_all = same-seen valid seen groups i r p;
            room = i.room;
          }))
      | inl kept ↦ elim (Bool-cases (leb max_groups (length (groups ++ made g r.0 ∷ [])))) [
        | inl full ↦ rw (normalize_last valid seen groups g gs kept full) (record {
          groups_fit = more-fit valid seen groups i r p g kept;
          distinct = more-Distinct valid seen groups i r p g;
          bounded = omega (arith, i.room, length-more valid seen groups i r p g);
        })
        | inr room ↦ rw (normalize_keep valid seen groups g gs kept room) (
            normalize_from-IsPartition valid r.1 (groups ++ made g r.0 ∷ []) gs (record {
              groups_fit = more-fit valid seen groups i r p g kept;
              distinct = more-Distinct valid seen groups i r p g;
              seen_all = more-seen valid seen groups i r p g;
              room = leb-false _ _ room;
            }))
      ]
    ]

-- Whatever the model returns, the groups that are kept have a title and a file each, name changed
-- files only, name no file twice, within a group or across groups, and are at most eight.
pub normalize_groups-IsPartition :
    (groups : List ModelGroup) (files : List String)
    → IsPartition files (normalize_groups groups files)
unfolding normalize_groups
normalize_groups-IsPartition groups files =
    normalize_from-IsPartition files [] [] groups
      (record { groups_fit = tt; distinct = tt; seen_all = λ x h. cc; room = omega arith })
