-- ===== src/Groups/Coverage.antt =====
-- Which of the paths that the model listed are kept.
use loupfeed_agents.Common.{
  ◌+◌, ◌≤◌, String, ◌≡◌, refl, Bool, true, false, ◌&&◌, ◌||◌, not, List, [], ◌∷◌, ◌++◌, length, leb,
  mem_str, nonempty, strip, arith, eq_iff, str_eq, All, any, Bool-cases, inl, inr, length-append,
  leb→le,
}
use loupfeed_agents.Groups.Normalize.{
  ModelGroup, DiffGroup, max_groups, pick, is_kept, made, normalize_from, normalize_groups,
}
use loupfeed_agents.Groups.Partition.{
  all_files, Picks, pick-Picks, mem-append, all_files-made, normalize_skip, normalize_last,
  normalize_keep,
}

-- A changed path that is listed, or was seen before, has been seen when its group is done.
pick-seen :
    (valid seen paths : List String) (x : String)
    → mem_str x valid ≡ true
    → (mem_str x seen || mem_str x paths) ≡ true
    → mem_str x (pick valid seen paths).1 ≡ true
unfolding pick
pick-seen valid seen [] x v h = ground (arith, h)
pick-seen valid seen (p ∷ ps) x v h = elim (Bool-cases (mem_str p valid && not (mem_str p seen))) [
  | inl new ↦ rw new (pick-seen valid (p ∷ seen) ps x v (ground (arith, h)))
  | inr old ↦ rw old (pick-seen valid seen ps x v (seen_before (str_eq x p) refl old))
]
  where
    seen_before :
        (b : Bool)
        → str_eq x p ≡ b
        → (mem_str p valid && not (mem_str p seen)) ≡ false
        → (mem_str x seen || mem_str x ps) ≡ true
    seen_before false e old = ground (arith, h)
    seen_before true e old =
        let same : x ≡ p = (eq_iff x p).0 e in
        let v' : mem_str p valid ≡ true = rw same at v in rw same (ground (arith, old, v'))

-- What was seen is in no group that is added later.
normalize_from-seen :
    (valid seen : List String) (groups : List DiffGroup) (gs : List ModelGroup) (x : String)
    → mem_str x seen ≡ true
    → mem_str x (all_files groups) ≡ false
    → mem_str x (all_files (normalize_from valid seen groups gs)) ≡ false
normalize_from-seen valid seen groups [] x s h = unfold normalize_from in h
normalize_from-seen valid seen groups (g ∷ gs) x s h =
    let r = pick valid seen g.files in
    let p : Picks valid seen r = pick-Picks valid seen g.files in
    let seen' : mem_str x r.1 ≡ true = ground (arith, s, p.seen_picked x) in
    let out : mem_str x (all_files (groups ++ made g r.0 ∷ [])) ≡ false =
      rw (all_files-made groups g r.0, mem-append x (all_files groups) r.0, h)
        (not_picked (mem_str x r.0) refl p) in
    elim (Bool-cases (is_kept g r.0)) [
      | inr dropped ↦
          rw (normalize_skip valid seen groups g gs dropped)
            (normalize_from-seen valid r.1 groups gs x seen' h)
      | inl kept ↦ elim (Bool-cases (leb max_groups (length (groups ++ made g r.0 ∷ [])))) [
        | inl full ↦ rw (normalize_last valid seen groups g gs kept full) out
        | inr room ↦
            rw (normalize_keep valid seen groups g gs kept room)
              (normalize_from-seen valid r.1 (groups ++ made g r.0 ∷ []) gs x seen' out)
      ]
    ]
  where
    not_picked :
        (b : Bool)
        → mem_str x (pick valid seen g.files).0 ≡ b
        → Picks valid seen (pick valid seen g.files)
        → b ≡ false
    not_picked false e p = refl
    not_picked true e p = ground (arith, p.new x e)

-- A changed path that the model's first group lists is in no group of the result if that group has
-- no title, whatever groups list the path after it.
pub normalize_groups-untitled :
    (g : ModelGroup) (gs : List ModelGroup) (files : List String) (x : String)
    → nonempty (strip g.title) ≡ false
    → mem_str x g.files ≡ true
    → mem_str x files ≡ true
    → mem_str x (all_files (normalize_groups (g ∷ gs) files)) ≡ false
unfolding normalize_groups
normalize_groups-untitled g gs files x untitled listed changed =
    rw (normalize_skip files [] [] g gs (unfold is_kept in rw untitled)) (
      normalize_from-seen files _ [] gs x
        (pick-seen files [] g.files x changed (ground (arith, listed))) refl)

abbrev pub is_listed : String → List ModelGroup → Bool
is_listed x gs = any (λ g. mem_str x g.files) gs

no_groups-listed : (gs : List ModelGroup) (x : String) → length gs ≡ 0 → is_listed x gs ≡ false
no_groups-listed [] x h = refl
no_groups-listed (g ∷ gs) x h = absurd (omega (arith, h))

-- One turn of the loop, for the paths that were seen before it or are listed from it on.
module _ (valid seen : List String) (groups : List DiffGroup) (g : ModelGroup) (x : String)
    (kept_seen : (y : String) → mem_str y seen ≡ true → mem_str y (all_files groups) ≡ true) where
  more-listed :
      (y : String)
      → mem_str y (pick valid seen g.files).1 ≡ true
      → mem_str y (all_files (groups ++ made g (pick valid seen g.files).0 ∷ [])) ≡ true
  more-listed y h =
      let r = pick valid seen g.files in
      let p : Picks valid seen r = pick-Picks valid seen g.files in
      rw (all_files-made groups g r.0, mem-append y (all_files groups) r.0)
        (ground (arith, h, p.seen_picked y, kept_seen y))

  dropped-listed :
      nonempty (strip g.title) ≡ true
      → is_kept g (pick valid seen g.files).0 ≡ false
      → (y : String) → mem_str y (pick valid seen g.files).1 ≡ true
      → mem_str y (all_files groups) ≡ true
  dropped-listed titled dropped y h =
      from_picked (pick valid seen g.files) (pick-Picks valid seen g.files) dropped h
    where
      from_picked :
          (r : List String × List String)
          → Picks valid seen r
          → is_kept g r.0 ≡ false
          → mem_str y r.1 ≡ true
          → mem_str y (all_files groups) ≡ true
      from_picked ([], seen') p d h = ground (arith, h, p.seen_picked y, kept_seen y)
      from_picked (z ∷ zs, seen') p d h = unfold is_kept in ground (arith, titled, d)

  next-listed :
      (gs : List ModelGroup)
      → mem_str x valid ≡ true
      → (mem_str x seen || is_listed x (g ∷ gs)) ≡ true
      → (mem_str x (pick valid seen g.files).1 || is_listed x gs) ≡ true
  next-listed gs v h = elim (Bool-cases (is_listed x gs)) [
    | inl later ↦ ground (arith, later)
    | inr not_later ↦
        ground (arith, pick-seen valid seen g.files x v (ground (arith, h, not_later)))
  ]

normalize_from-listed :
    (valid seen : List String) (groups : List DiffGroup) (gs : List ModelGroup)
    → All (λ g. nonempty (strip g.title) ≡ true) gs
    → length groups + length gs ≤ max_groups
    → ((y : String) → mem_str y seen ≡ true → mem_str y (all_files groups) ≡ true)
    → (x : String) → mem_str x valid ≡ true
    → (mem_str x seen || is_listed x gs) ≡ true
    → mem_str x (all_files (normalize_from valid seen groups gs)) ≡ true
normalize_from-listed valid seen groups [] t l s x v h =
    unfold normalize_from in s x (ground (arith, h))
normalize_from-listed valid seen groups (g ∷ gs) t l s x v h =
    let r = pick valid seen g.files in
    let next : (mem_str x r.1 || is_listed x gs) ≡ true =
      next-listed valid seen groups g x s gs v h in
    let size = length-append groups (made g r.0 ∷ []) in
    elim (Bool-cases (is_kept g r.0)) [
      | inr dropped ↦ rw (normalize_skip valid seen groups g gs dropped) (
          normalize_from-listed valid r.1 groups gs t.1 (omega (arith, l))
            (dropped-listed valid seen groups g x s t.0 dropped) x v next)
      | inl kept ↦ elim (Bool-cases (leb max_groups (length (groups ++ made g r.0 ∷ [])))) [
        | inl full ↦ rw (normalize_last valid seen groups g gs kept full) (
            more-listed valid seen groups g x s x (
              ground
                (arith, next, no_groups-listed gs x (omega (arith, l, size, leb→le _ _ full)))))
        | inr room ↦ rw (normalize_keep valid seen groups g gs kept room) (
            normalize_from-listed valid r.1 (groups ++ made g r.0 ∷ []) gs t.1
              (omega (arith, l, size)) (more-listed valid seen groups g x s) x v next)
      ]
    ]

-- If the model returns at most eight groups and gives each a title, then every changed path that
-- some group lists is in a group of the result.
pub normalize_groups-listed :
    (groups : List ModelGroup) (files : List String) (x : String)
    → All (λ g. nonempty (strip g.title) ≡ true) groups
    → length groups ≤ max_groups
    → mem_str x files ≡ true
    → is_listed x groups ≡ true
    → mem_str x (all_files (normalize_groups groups files)) ≡ true
unfolding normalize_groups
normalize_groups-listed groups files x titled few changed listed =
    normalize_from-listed files [] [] groups titled (omega (arith, few)) (λ y h. cc) x changed
      listed
