-- ===== src/Findings/Select.antt =====
-- `filter_findings_for_publish`: which findings are surfaced on GitHub, and in which order.
-- A threshold outside the four severities, on which the code raises, is not told from the lowest.
use mathlib.Core.List.{Perm}
use mathlib.Core.List.Perm
use loupfeed_agents.Common.{
  ℕ, leb, suc, zero, String, ◌≡◌, refl, ap, ◌∙◌, subst, Bool, true, false, ◌&&◌, if◌then◌else◌,
  List, [], ◌∷◌, ◌++◌, length, take, drop, Bool-cases, inl, inr,
}
use loupfeed_agents.Json.{Fields, get, has, eq_text}
use loupfeed_agents.Findings.Rank.{severity_rank, severity_order, at_most, at_most-total}

-- The open findings at or above the threshold, by its rank.
unfoldable pub eligible : ℕ → Fields → Bool
unfolding has get eq_text severity_rank
eligible rank f =
    (if has "status" f then eq_text (get "status" f) "open" else true) && leb rank (severity_rank f)

unfoldable pub eligible_findings : ℕ → List Fields → List Fields
unfolding eligible
eligible_findings rank [] = []
eligible_findings rank (f ∷ fs) =
    let rest = eligible_findings rank fs in if eligible rank f then f ∷ rest else rest

-- `list.sort` with the key, which is stable
unfoldable pub insert : Fields → List Fields → List Fields
unfolding at_most
insert f [] = f ∷ []
insert f (g ∷ gs) = let rest = insert f gs in if at_most f g then f ∷ g ∷ gs else g ∷ rest

unfoldable pub sort : List Fields → List Fields
unfolding insert
sort [] = []
sort (f ∷ fs) = insert f (sort fs)

unfoldable pub filter_findings_for_publish : List Fields → String → ℕ → List Fields
unfolding sort eligible_findings severity_order
filter_findings_for_publish findings severity_threshold cap =
    take cap (sort (eligible_findings (severity_order severity_threshold) findings))

-- Each finding is at most the next one, by the key.
abbrev pub Ordered : List Fields → Type 0
Ordered [] = Unit
Ordered (f ∷ []) = Unit
Ordered (f ∷ g ∷ fs) = (at_most f g ≡ true) × Ordered (g ∷ fs)

insert_front :
    (f g : Fields) (gs : List Fields) → at_most f g ≡ true → insert f (g ∷ gs) ≡ f ∷ g ∷ gs
unfolding insert
insert_front f g gs h = rw h

insert_behind :
    (f g : Fields) (gs : List Fields) → at_most f g ≡ false → insert f (g ∷ gs) ≡ g ∷ insert f gs
unfolding insert
insert_behind f g gs h = rw h

insert-Perm : (f : Fields) (gs : List Fields) → Perm (insert f gs) (f ∷ gs)
insert-Perm f [] = unfold insert in Perm.refl (f ∷ [])
insert-Perm f (g ∷ gs) = elim (Bool-cases (at_most f g)) [
  | inl h ↦ rw (insert_front f g gs h) (Perm.refl (f ∷ g ∷ gs))
  | inr h ↦
      rw (insert_behind f g gs h) (Perm.trans (Perm.cons g (insert-Perm f gs)) (Perm.swap f g gs))
]

pub sort-Perm : (fs : List Fields) → Perm (sort fs) fs
unfolding sort
sort-Perm [] = Perm.refl []
sort-Perm (f ∷ fs) = Perm.trans (insert-Perm f (sort fs)) (Perm.cons f (sort-Perm fs))

-- Behind a finding that both the inserted one and the head of the list are not below.
Ordered-insert_behind :
    (f g : Fields) (gs : List Fields)
    → at_most g f ≡ true
    → Ordered (g ∷ gs)
    → Ordered (insert f gs)
    → Ordered (g ∷ insert f gs)
Ordered-insert_behind f g [] le o i = unfold insert in (le, tt)
Ordered-insert_behind f g (x ∷ gs) le o i = elim (Bool-cases (at_most f x)) [
  | inl h ↦ rw (insert_front f x gs h) (le, (h, o.1))
  | inr h ↦ rw (insert_behind f x gs h) (o.0, subst Ordered (insert_behind f x gs h) i)
]

Ordered-tail : (g : Fields) (gs : List Fields) → Ordered (g ∷ gs) → Ordered gs
Ordered-tail g [] o = tt
Ordered-tail g (x ∷ gs) o = o.1

Ordered-insert : (f : Fields) (gs : List Fields) → Ordered gs → Ordered (insert f gs)
Ordered-insert f [] o = unfold insert in tt
Ordered-insert f (g ∷ gs) o = elim (Bool-cases (at_most f g)) [
  | inl h ↦ rw (insert_front f g gs h) (h, o)
  | inr h ↦ rw (insert_behind f g gs h) (
      Ordered-insert_behind f g gs (at_most-total f g h) o
        (Ordered-insert f gs (Ordered-tail g gs o)))
]

pub sort-Ordered : (fs : List Fields) → Ordered (sort fs)
unfolding sort
sort-Ordered [] = tt
sort-Ordered (f ∷ fs) = Ordered-insert f (sort fs) (sort-Ordered fs)

length-insert : (f : Fields) (gs : List Fields) → length (insert f gs) ≡ suc (length gs)
length-insert f [] = unfold insert in refl
length-insert f (g ∷ gs) = elim (Bool-cases (at_most f g)) [
  | inl h ↦ ap length (insert_front f g gs h)
  | inr h ↦ ap length (insert_behind f g gs h) ∙ ap suc (length-insert f gs)
]

pub length-sort : (fs : List Fields) → length (sort fs) ≡ length fs
unfolding sort
length-sort [] = refl
length-sort (f ∷ fs) = length-insert f (sort fs) ∙ ap suc (length-sort fs)

pub take-drop : {A : Type 0} (n : ℕ) (xs : List A) → take n xs ++ drop n xs ≡ xs
take-drop zero xs = refl
take-drop (suc n) [] = refl
take-drop (suc n) (x ∷ xs) = ap (λ (l : List _). x ∷ l) (take-drop n xs)
