-- ===== src/Publish/Once.antt =====
-- A finding that was published with a comment is not selected again.
use loupfeed_agents.Common.{
  ℕ, zero, suc, String, ◌≡◌, refl, ap, ◌∙◌, Bool, true, false, ◌&&◌, not, List, [], ◌∷◌, map, arith,
  All, Option-cases, ◌⊎◌, inl, inr, if◌then◌else◌, all, is_some, take, &&-eq-true,
}
use loupfeed_agents.Json.{ℤ, Fields}
use loupfeed_agents.Findings.Select.{
  eligible, eligible_findings, insert, sort, filter_findings_for_publish,
}
use loupfeed_agents.Findings.Rank.{at_most, severity_order}
use loupfeed_agents.Publish.Select.{
  keep, is_unpublished, is_in_diff, unpublished_findings, selected,
}
use loupfeed_agents.Publish.Stamp.{Comments, comment_for}
use loupfeed_agents.Publish.Stamped.{published, published-comment}

swap : (a b d : Bool) → (a && (b && d)) ≡ (b && (a && d))
swap a b d = ground arith

module _ (p : Fields → Bool) where
  all-keep : (t : Fields → Bool) (fs : List Fields) → all p fs ≡ true → all p (keep t fs) ≡ true
  unfolding keep
  all-keep t [] h = refl
  all-keep t (f ∷ fs) h = ground (arith, h, all-keep t fs)

  -- what holds of both branches
  if_both :
      (b : Bool) (xs ys : List Fields) (r : Bool)
      → all p xs ≡ r
      → all p ys ≡ r
      → all p (if b then xs else ys) ≡ r
  if_both true xs ys r hx hy = hx
  if_both false xs ys r hx hy = hy

  all-eligible_findings :
      (rank : ℕ) (fs : List Fields) → all p fs ≡ true → all p (eligible_findings rank fs) ≡ true
  unfolding eligible_findings
  all-eligible_findings rank [] h = refl
  all-eligible_findings rank (f ∷ fs) h =
      let both = &&-eq-true (p f) (all p fs) h in
      let rest = all-eligible_findings rank fs both.1 in
      if_both (eligible rank f) (f ∷ eligible_findings rank fs) (eligible_findings rank fs) true
        (rw (both.0, rest) refl) rest

  all-insert : (f : Fields) (gs : List Fields) → all p (insert f gs) ≡ (p f && all p gs)
  unfolding insert
  all-insert f [] = refl
  all-insert f (g ∷ gs) =
      if_both (at_most f g) (f ∷ g ∷ gs) (g ∷ insert f gs) (p f && all p (g ∷ gs)) refl
        (ap (λ (b : Bool). p g && b) (all-insert f gs) ∙ swap (p g) (p f) (all p gs))

  all-sort : (fs : List Fields) → all p (sort fs) ≡ all p fs
  unfolding sort
  all-sort [] = refl
  all-sort (f ∷ fs) = all-insert f (sort fs) ∙ ap (λ (b : Bool). p f && b) (all-sort fs)

  all-take : (n : ℕ) (fs : List Fields) → all p fs ≡ true → all p (take n fs) ≡ true
  all-take zero fs h = refl
  all-take (suc n) [] h = refl
  all-take (suc n) (f ∷ fs) h = ground (arith, h, all-take n fs)

  all-filter_findings_for_publish :
      (fs : List Fields) (threshold : String) (cap : ℕ)
      → all p fs ≡ true
      → all p (filter_findings_for_publish fs threshold cap) ≡ true
  unfolding filter_findings_for_publish
  all-filter_findings_for_publish fs threshold cap h =
      let rank = severity_order threshold in
      all-take cap (sort (eligible_findings rank fs))
        (all-sort (eligible_findings rank fs) ∙ all-eligible_findings rank fs h)

  -- what a test implies holds of all that it keeps
  all-kept :
      (t : Fields → Bool) (fs : List Fields)
      → All (λ f. t f ≡ false ⊎ (p f ≡ true)) fs
      → all p (keep t fs) ≡ true
  unfolding keep
  all-kept t [] h = refl
  all-kept t (f ∷ fs) h = ground (arith, h.0, all-kept t fs h.1)

  all-selected :
      (is_re_review : Bool) (head threshold : String) (cap : ℕ) (fs : List Fields)
      → All (λ f. (is_unpublished is_re_review head f ≡ false) ⊎ (p f ≡ true)) fs
      → all p (selected is_re_review head threshold cap fs) ≡ true
  unfolding selected unpublished_findings
  all-selected is_re_review head threshold cap fs h =
      all-filter_findings_for_publish (keep is_in_diff (keep (is_unpublished is_re_review head) fs))
        threshold cap
        (all-keep is_in_diff (keep (is_unpublished is_re_review head) fs)
          (all-kept (is_unpublished is_re_review head) fs h))

-- the finding has no comment among those
abbrev pub lacks_comment : Comments → Fields → Bool
lacks_comment comments f = not (is_some (comment_for comments f))

module _ (ids : List String) (review : ℤ) (comments : Comments) (run : String) where
  published-unselected :
      (is_re_review : Bool) (head : String) (f : Fields)
      → (is_unpublished is_re_review head (published ids review comments run f) ≡ false)
        ⊎ (lacks_comment comments (published ids review comments run f) ≡ true)
  published-unselected is_re_review head f =
      elim (Option-cases (comment_for comments (published ids review comments run f))) [
        | inl e ↦ inr (rw e refl)
        | inr e ↦
            let is = published-comment ids review comments run f e.0 e.1 in
            inl (unfold is_unpublished in rw is (ground arith))
      ]

  pub selected-published :
      (is_re_review : Bool) (head threshold : String) (cap : ℕ) (fs : List Fields)
      → all
          (lacks_comment comments)
          (selected is_re_review head threshold cap (map (published ids review comments run) fs))
        ≡ true
  selected-published is_re_review head threshold cap fs =
      all-selected (lacks_comment comments) is_re_review head threshold cap
        (map (published ids review comments run) fs) (each fs)
    where
      each :
          (fs : List Fields)
          → All
              (λ f.
                (is_unpublished is_re_review head f ≡ false) ⊎ (lacks_comment comments f ≡ true))
              (map (published ids review comments run) fs)
      each [] = tt
      each (f ∷ fs) = (published-unselected is_re_review head f, each fs)
