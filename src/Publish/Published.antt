-- ===== src/Publish/Published.antt =====
-- What a publication leaves of one finding, key by key.
use loupfeed_agents.Common.{
  String, ◌≡◌, refl, ap, ◌∙◌, Bool, true, false, ◌&&◌, ◌||◌, not, none, some, Option, List, [], ◌∷◌,
  map, Bool-cases, inl, inr, nonempty, str_eq, arith,
}
use loupfeed_agents.Json.{
  Value, int, str, ℤ, pos, negsuc, eq_ℤ, same_num, Fields, get, put, in_texts, get-put,
}
use loupfeed_agents.Reconcile.Replies.{int_list}
use loupfeed_agents.Reconcile.Sync.{mem_int}
use loupfeed_agents.Reconcile.Kept.{Kept}
use loupfeed_agents.Publish.Stamp.{
  Comments, stamp_review, with_comment, with_surface, with_run, stamped, comment_for, stamp_comment,
}
use loupfeed_agents.Publish.Stamped.{
  with_surface-get, with_run-get, stamp_review-Kept, published, published-id, published-comment,
  comment_for-id,
}

-- the keys that a publication may write
abbrev pub is_stamp_key : String → Bool
is_stamp_key k =
    str_eq "surface" k
    || (str_eq "github_review_id" k
        || (str_eq "github_review_comment_id" k
            || (str_eq "github_review_comment_ids" k || str_eq "github_review_run_id" k)))

-- The finding `g` is `f` as it is published with a review, whose findings have these ids, and with
-- the comment that belongs to it, if one does.
pub record IsPublished (ids : List String) (review : ℤ) (comments : Comments) (run : String)
    (f g : Fields) : Type 0 where
  pub in_review :
      in_texts (get "id" f) ids ≡ true → same_num (get "github_review_id" g) (int review) ≡ true
  pub not_in_review :
      in_texts (get "id" f) ids ≡ false → get "github_review_id" g ≡ get "github_review_id" f
  pub commented :
      (z : ℤ)
      → comment_for comments f ≡ some z
      → (get "github_review_comment_id" g ≡ int z)
        × (nonempty run ≡ true → get "github_review_run_id" g ≡ str run)
  pub apart : in_texts (get "id" f) ids ≡ false → comment_for comments f ≡ none → g ≡ f
  pub others : (k : String) → is_stamp_key k ≡ false → get k g ≡ get k f

stamp_review-in :
    (ids : List String) (review : ℤ) (f : Fields)
    → in_texts (get "id" f) ids ≡ true
    → same_num (int review) (int review) ≡ true
    → same_num (get "github_review_id" (stamp_review ids review f).0) (int review) ≡ true
unfolding stamp_review
stamp_review-in ids review f h same =
    elim (Bool-cases (same_num (get "github_review_id" f) (int review))) [
      | inl e ↦ rw (h, e) e
      | inr e ↦
          rw (h, e)
            (rw (get-put "surface" "github_review_id")
              (rw (get-put "github_review_id" "github_review_id") same))
    ]

stamp_review-out :
    (ids : List String) (review : ℤ) (f : Fields)
    → in_texts (get "id" f) ids ≡ false
    → (stamp_review ids review f).0 ≡ f
unfolding stamp_review
stamp_review-out ids review f h = rw h refl

stamp_review-get :
    (k : String) (ids : List String) (review : ℤ) (f : Fields)
    → str_eq "surface" k ≡ false
    → str_eq "github_review_id" k ≡ false
    → get k (stamp_review ids review f).0 ≡ get k f
unfolding stamp_review
stamp_review-get k ids review f s r =
    elim (Bool-cases
      (in_texts (get "id" f) ids && not (same_num (get "github_review_id" f) (int review)))) [
        | inl h ↦ rw h (simp (get-put, s, r))
        | inr h ↦ rw h refl
      ]

with_comment-get :
    (k : String) (z : ℤ) (f : Fields)
    → str_eq "github_review_comment_id" k ≡ false
    → str_eq "github_review_comment_ids" k ≡ false
    → get k (with_comment z f) ≡ get k f
unfolding with_comment
with_comment-get k z f one more =
    let g = put "github_review_comment_id" (int z) f in
    elim (Bool-cases (mem_int z (int_list (get "github_review_comment_ids" g)))) [
      | inl h ↦ rw h (simp (get-put, one))
      | inr h ↦ rw h (simp (get-put, one, more))
    ]

stamped-get :
    (k run fid : String) (o : Option ℤ) (f : Fields)
    → str_eq "surface" k ≡ false
    → str_eq "github_review_comment_id" k ≡ false
    → str_eq "github_review_comment_ids" k ≡ false
    → str_eq "github_review_run_id" k ≡ false
    → get k (stamped run fid o f).0 ≡ get k f
unfolding stamped
stamped-get k run fid none f s one more r = refl
stamped-get k run fid (some z) f s one more r =
    with_run-get k run (with_surface z fid (with_comment z f)) r
    ∙ with_surface-get k fid z (with_comment z f) s
    ∙ with_comment-get k z f one more

stamped-run :
    (run fid : String) (o : Option ℤ) (f : Fields) (z : ℤ)
    → o ≡ some z
    → nonempty run ≡ true
    → get "github_review_run_id" (stamped run fid o f).0 ≡ str run
unfolding stamped with_run
stamped-run run fid none f z e h = absurd (cc e)
stamped-run run fid (some i) f z e h = rw h (
    get-put "github_review_run_id" "github_review_run_id" (str run)
      (with_surface i fid (with_comment i f)))

stamped-none :
    (run fid : String) (o : Option ℤ) (f : Fields) → o ≡ none → (stamped run fid o f).0 ≡ f
unfolding stamped
stamped-none run fid none f e = refl
stamped-none run fid (some z) f e = absurd (cc e)

not_or : (a b : Bool) → (a || b) ≡ false → (a ≡ false) × (b ≡ false)
not_or a b h = ground (arith, h)

eq_ℤ_refl : (z : ℤ) → eq_ℤ z z ≡ true
unfolding eq_ℤ
eq_ℤ_refl (pos n) = ground arith
eq_ℤ_refl (negsuc n) = ground arith

same_num_refl : (z : ℤ) → same_num (int z) (int z) ≡ true
unfolding same_num
same_num_refl z = eq_ℤ_refl z

module _ (ids : List String) (review : ℤ) (comments : Comments) (run : String) where
  review_of-published :
      (f : Fields)
      → get "github_review_id" (published ids review comments run f)
        ≡ get "github_review_id" (stamp_review ids review f).0
  review_of-published f =
      unfold stamp_comment in
      stamped-get "github_review_id" run _ _ (stamp_review ids review f).0 refl refl refl refl

  published-get :
      (f : Fields) (k : String)
      → is_stamp_key k ≡ false
      → get k (published ids review comments run f) ≡ get k f
  published-get f k h =
      let one = not_or (str_eq "surface" k) _ h in
      let two = not_or (str_eq "github_review_id" k) _ one.1 in
      let three = not_or (str_eq "github_review_comment_id" k) _ two.1 in
      let four = not_or (str_eq "github_review_comment_ids" k) _ three.1 in
      unfold stamp_comment in
      stamped-get k run _ _ (stamp_review ids review f).0 one.0 three.0 four.0 four.1
      ∙ stamp_review-get k ids review f one.0 two.0

  comment_behind :
      (f : Fields) (o : Option ℤ)
      → comment_for comments f ≡ o
      → comment_for comments (stamp_review ids review f).0 ≡ o
  comment_behind f o h =
      comment_for-id comments f (stamp_review ids review f).0
        (Kept.id (stamp_review-Kept ids review f))
      ∙ h

  run_of-published :
      (f : Fields) (z : ℤ)
      → comment_for comments f ≡ some z
      → nonempty run ≡ true
      → get "github_review_run_id" (published ids review comments run f) ≡ str run
  run_of-published f z h there =
      let behind = comment_behind f (some z) h in
      unfold stamp_comment in stamped-run run _ _ (stamp_review ids review f).0 z behind there

  uncommented :
      (f : Fields)
      → comment_for comments (stamp_review ids review f).0 ≡ none
      → published ids review comments run f ≡ (stamp_review ids review f).0
  unfolding stamp_comment
  uncommented f h = stamped-none run _ _ (stamp_review ids review f).0 h

  untouched :
      (f : Fields)
      → in_texts (get "id" f) ids ≡ false
      → comment_for comments f ≡ none
      → published ids review comments run f ≡ f
  untouched f out h =
      let behind = comment_behind f none h in
      uncommented f behind ∙ stamp_review-out ids review f out

  pub published-IsPublished :
      (f : Fields) → IsPublished ids review comments run f (published ids review comments run f)
  published-IsPublished f = record {
    in_review = λ h.
        ap (λ (v : Value). same_num v (int review)) (review_of-published f)
        ∙ stamp_review-in ids review f h (same_num_refl review);
    not_in_review =
        λ h. review_of-published f ∙ ap (get "github_review_id") (stamp_review-out ids review f h);
    commented = λ z h. (
      published-comment ids review comments run f z (
          comment_for-id comments f (published ids review comments run f)
            (published-id ids review comments run f)
          ∙ h),
      run_of-published f z h,
    );
    apart = λ out h. untouched f out h;
    others = λ k h. published-get f k h;
  }

  -- The findings pairwise.
  abbrev pub EachPublished : List Fields → List Fields → Type 0
  EachPublished [] [] = Unit
  EachPublished [] (g ∷ gs) = ⊥
  EachPublished (f ∷ fs) [] = ⊥
  EachPublished (f ∷ fs) (g ∷ gs) = IsPublished ids review comments run f g × EachPublished fs gs

  pub map-EachPublished :
      (fs : List Fields) → EachPublished fs (map (published ids review comments run) fs)
  map-EachPublished [] = tt
  map-EachPublished (f ∷ fs) = (published-IsPublished f, map-EachPublished fs)
