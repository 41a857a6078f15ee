-- ===== src/Publish/Stamped.antt =====
-- What the store holds behind a publication.
use loupfeed_agents.Common.{
  String, ◌≡◌, refl, sym, ap, subst, ◌∙◌, false, ◌&&◌, not, Option, none, some, List, [], ◌∷◌, map,
  All, Bool-cases, inl, inr, nonempty, str_eq,
}
use loupfeed_agents.Json.{
  Value, int, str, ℤ, same_num, as_str, Fields, get, put, is_str, in_texts, text_or, get-put,
}
use loupfeed_agents.Findings.Coerce.{HasId}
use loupfeed_agents.Reconcile.Match.{assoc_get}
use loupfeed_agents.Reconcile.Replies.{int_list}
use loupfeed_agents.Reconcile.Sync.{Synced, mem_int}
use loupfeed_agents.Reconcile.Kept.{Kept, put-Kept, nothing-Kept}
use loupfeed_agents.Reconcile.Stored.{or_false}
use loupfeed_agents.Publish.Stamp.{
  Comments, stamp_review, with_comment, with_surface, with_run, stamped, comment_for, stamp_comment,
  stamp_all,
}

pub stamp_review-Kept :
    (ids : List String) (review : ℤ) (f : Fields) → Kept f (stamp_review ids review f)
unfolding stamp_review
stamp_review-Kept ids review f =
    elim (Bool-cases
      (in_texts (get "id" f) ids && not (same_num (get "github_review_id" f) (int review)))) [
        | inl h ↦ rw h (
            put-Kept "surface" _ f (put "github_review_id" (int review) f) refl
              (get-put "github_review_id" "id" (int review) f))
        | inr h ↦ rw h (nothing-Kept f)
      ]

with_comment-id : (z : ℤ) (f : Fields) → get "id" (with_comment z f) ≡ get "id" f
unfolding with_comment
with_comment-id z f =
    let g = put "github_review_comment_id" (int z) f in
    elim (Bool-cases (mem_int z (int_list (get "github_review_comment_ids" g)))) [
      | inl h ↦ rw h (get-put "github_review_comment_id" "id" (int z) f)
      | inr h ↦ rw h (
          get-put "github_review_comment_ids" "id" _ g
          ∙ get-put "github_review_comment_id" "id" (int z) f)
    ]

with_comment-comment :
    (z : ℤ) (f : Fields) → get "github_review_comment_id" (with_comment z f) ≡ int z
unfolding with_comment
with_comment-comment z f =
    let g = put "github_review_comment_id" (int z) f in
    elim (Bool-cases (mem_int z (int_list (get "github_review_comment_ids" g)))) [
      | inl h ↦ rw h (get-put "github_review_comment_id" "github_review_comment_id" (int z) f)
      | inr h ↦ rw h (
          get-put "github_review_comment_ids" "github_review_comment_id" _ g
          ∙ get-put "github_review_comment_id" "github_review_comment_id" (int z) f)
    ]

pub with_run-get :
    (k run : String) (f : Fields)
    → str_eq "github_review_run_id" k ≡ false
    → get k (with_run run f) ≡ get k f
unfolding with_run
with_run-get k run f ne = elim (Bool-cases (nonempty run)) [
  | inl h ↦ rw h (get-put "github_review_run_id" k (str run) f ∙ rw ne refl)
  | inr h ↦ rw h refl
]

pub with_surface-get :
    (k fid : String) (z : ℤ) (f : Fields)
    → str_eq "surface" k ≡ false
    → get k (with_surface z fid f) ≡ get k f
unfolding with_surface
with_surface-get k fid z f ne = simp (get-put, ne)

stamped-Kept : (run fid : String) (o : Option ℤ) (f : Fields) → Kept f (stamped run fid o f)
unfolding stamped
stamped-Kept run fid none f = nothing-Kept f
stamped-Kept run fid (some z) f = record {
  id =
      with_run-get "id" run (with_surface z fid (with_comment z f)) refl
      ∙ with_surface-get "id" fid z (with_comment z f) refl
      ∙ with_comment-id z f;
  same = λ e. absurd (cc e);
}

stamped-comment :
    (run fid : String) (o : Option ℤ) (f : Fields) (z : ℤ)
    → o ≡ some z
    → get "github_review_comment_id" (stamped run fid o f).0 ≡ int z
stamped-comment run fid o f z e =
    subst (λ (x : Option ℤ). get "github_review_comment_id" (stamped run fid x f).0 ≡ int z) (sym e)
      (surfaced run fid f z)
  where
    surfaced :
        (run fid : String) (f : Fields) (z : ℤ)
        → get "github_review_comment_id" (stamped run fid (some z) f).0 ≡ int z
    surfaced run fid f z =
        unfold stamped in
        with_run-get "github_review_comment_id" run (with_surface z fid (with_comment z f)) refl
        ∙ with_surface-get "github_review_comment_id" fid z (with_comment z f) refl
        ∙ with_comment-comment z f

pub stamp_comment-Kept :
    (comments : Comments) (run : String) (f : Fields) → Kept f (stamp_comment comments run f)
unfolding stamp_comment
stamp_comment-Kept comments run f =
    stamped-Kept run (text_or (get "id" f) "") (comment_for comments f) f

-- A finding as a publication leaves it.
abbrev pub published : List String → ℤ → Comments → String → Fields → Fields
published ids review comments run f = (stamp_comment comments run (stamp_review ids review f).0).0

pub comment_for-id :
    (comments : Comments) (f g : Fields)
    → get "id" g ≡ get "id" f
    → comment_for comments g ≡ comment_for comments f
unfolding comment_for
comment_for-id comments f g e =
    ap (λ (v : Value). elim (as_str v) [ none ↦ none | some fid ↦ assoc_get str_eq fid comments ]) e

pub published-id :
    (ids : List String) (review : ℤ) (comments : Comments) (run : String) (f : Fields)
    → get "id" (published ids review comments run f) ≡ get "id" f
published-id ids review comments run f =
    Kept.id (stamp_comment-Kept comments run (stamp_review ids review f).0)
    ∙ Kept.id (stamp_review-Kept ids review f)

-- A finding with a comment is stored with it.
pub published-comment :
    (ids : List String) (review : ℤ) (comments : Comments) (run : String) (f : Fields) (z : ℤ)
    → comment_for comments (published ids review comments run f) ≡ some z
    → get "github_review_comment_id" (published ids review comments run f) ≡ int z
published-comment ids review comments run f z h =
    let g = (stamp_review ids review f).0 in
    let same =
      comment_for-id comments g (published ids review comments run f)
        (Kept.id (stamp_comment-Kept comments run g)) in
    unfold stamp_comment in
    stamped-comment run (text_or (get "id" g) "") (comment_for comments g) g z (sym same ∙ h)

module _ (stamp : Fields → Synced) (kept : (f : Fields) → Kept f (stamp f)) where
  pub stamp_all-map : (fs : List Fields) → (stamp_all stamp fs).0 ≡ map (λ f. (stamp f).0) fs
  unfolding stamp_all
  stamp_all-map [] = refl
  stamp_all-map (f ∷ fs) = ap (λ (l : List Fields). (stamp f).0 ∷ l) (stamp_all-map fs)

  pub stamp_all-HasId : (fs : List Fields) → All HasId fs → All HasId (stamp_all stamp fs).0
  unfolding stamp_all
  stamp_all-HasId [] h = tt
  stamp_all-HasId (f ∷ fs) h = (ap is_str (Kept.id (kept f)) ∙ h.0, stamp_all-HasId fs h.1)

  pub stamp_all_unchanged :
      (fs : List Fields) → (stamp_all stamp fs).1 ≡ false → (stamp_all stamp fs).0 ≡ fs
  unfolding stamp_all
  stamp_all_unchanged [] h = refl
  stamp_all_unchanged (f ∷ fs) h =
      let quiet = or_false (stamp f).1 (stamp_all stamp fs).1 h in
      ap (λ (g : Fields). g ∷ (stamp_all stamp fs).0) ((kept f).same quiet.0)
      ∙ ap (λ (l : List Fields). f ∷ l) (stamp_all_unchanged fs quiet.1)
