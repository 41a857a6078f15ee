-- ===== src/Findings/Rank.antt =====
-- The sort key of `filter_findings_for_publish`: severity, file and first line, compared as Python
-- compares tuples.
use Prim.Native.String as S
use loupfeed_agents.Common.{
  ℕ, ltb, String, ◌≡◌, refl, sym, ap, ◌∙◌, Bool, true, false, none, some, if◌then◌else◌, str_eq,
  code, arith, not,
}
use loupfeed_agents.Json.{ℤ, pos, negsuc, num_of, Fields, get, text_or}

-- the result of a comparison
pub data Order : Type 0 where
  below : Order
  equal : Order
  above : Order

unfoldable pub flip : Order → Order
flip below = above
flip equal = equal
flip above = below

-- lexicographic: the second comparison counts where the first finds no difference
unfoldable pub then_by : Order → Order → Order
then_by below o = below
then_by equal o = o
then_by above o = above

unfoldable pub cmp_ℕ : ℕ → ℕ → Order
cmp_ℕ m n = if ltb m n then below else if ltb n m then above else equal

unfoldable pub cmp_ℤ : ℤ → ℤ → Order
unfolding cmp_ℕ
cmp_ℤ (pos m) (pos n) = cmp_ℕ m n
cmp_ℤ (pos m) (negsuc n) = above
cmp_ℤ (negsuc m) (pos n) = below
cmp_ℤ (negsuc m) (negsuc n) = cmp_ℕ n m

unfoldable pub cmp_text : String → String → Order
unfolding then_by cmp_ℕ
cmp_text S.[] S.[] = equal
cmp_text S.[] (S.◌∷◌ d t) = below
cmp_text (S.◌∷◌ c s) S.[] = above
cmp_text (S.◌∷◌ c s) (S.◌∷◌ d t) = then_by (cmp_ℕ (code c) (code d)) (cmp_text s t)

-- `SEVERITY_ORDER`
unfoldable pub severity_order : String → ℕ
severity_order s =
    if str_eq s "medium"
    then 1
    else if str_eq s "high"
    then 2
    else if str_eq s "critical"
    then 3
    else 0

-- `SEVERITY_ORDER.get(finding.get("severity", "low"), 0)`
unfoldable pub severity_rank : Fields → ℕ
unfolding severity_order text_or get
severity_rank f = severity_order (text_or (get "severity" f) "low")

-- `f.get("start_line") or 0`
unfoldable pub start_line : Fields → ℤ
unfolding num_of get
start_line f = elim (num_of (get "start_line" f)) [ none ↦ pos 0 | some z ↦ z ]

-- the keys of two findings compared: the severity descending, then the file, then the line
unfoldable pub cmp_key : Fields → Fields → Order
unfolding then_by cmp_ℕ severity_rank cmp_text text_or get start_line cmp_ℤ
cmp_key f g = then_by (cmp_ℕ (severity_rank g) (severity_rank f)) (
    then_by (cmp_text (text_or (get "file" f) "") (text_or (get "file" g) ""))
      (cmp_ℤ (start_line f) (start_line g)))

unfoldable pub is_above : Order → Bool
is_above above = true
is_above _ = false

-- the key of the first is at most that of the second
unfoldable pub at_most : Fields → Fields → Bool
unfolding is_above cmp_key
at_most f g = not (is_above (cmp_key f g))

flip-cmp_ℕ : (m n : ℕ) → cmp_ℕ n m ≡ flip (cmp_ℕ m n)
unfolding cmp_ℕ flip
flip-cmp_ℕ m n = ground arith

flip-then_by : (a b : Order) → flip (then_by a b) ≡ then_by (flip a) (flip b)
unfolding flip then_by
flip-then_by below b = refl
flip-then_by equal b = refl
flip-then_by above b = refl

flip-both :
    (a b : Order) {a' b' : Order} → a' ≡ flip a → b' ≡ flip b → then_by a' b' ≡ flip (then_by a b)
flip-both a b h k = rw (h, k) (sym (flip-then_by a b))

flip-cmp_ℤ : (a b : ℤ) → cmp_ℤ b a ≡ flip (cmp_ℤ a b)
unfolding cmp_ℤ flip
flip-cmp_ℤ (pos m) (pos n) = flip-cmp_ℕ m n
flip-cmp_ℤ (pos m) (negsuc n) = refl
flip-cmp_ℤ (negsuc m) (pos n) = refl
flip-cmp_ℤ (negsuc m) (negsuc n) = flip-cmp_ℕ n m

flip-cmp_text : (s t : String) → cmp_text t s ≡ flip (cmp_text s t)
unfolding cmp_text flip
flip-cmp_text S.[] S.[] = refl
flip-cmp_text S.[] (S.◌∷◌ d t) = refl
flip-cmp_text (S.◌∷◌ c s) S.[] = refl
flip-cmp_text (S.◌∷◌ c s) (S.◌∷◌ d t) =
    flip-both (cmp_ℕ (code c) (code d)) (cmp_text s t) (flip-cmp_ℕ (code c) (code d))
      (flip-cmp_text s t)

flip-cmp_key : (f g : Fields) → cmp_key g f ≡ flip (cmp_key f g)
unfolding cmp_key
flip-cmp_key f g = flip-both _ _ (flip-cmp_ℕ (severity_rank g) (severity_rank f)) (
    flip-both _ _ (flip-cmp_text (text_or (get "file" f) "") (text_or (get "file" g) ""))
      (flip-cmp_ℤ (start_line f) (start_line g)))

flip-not_above : (o : Order) → not (is_above o) ≡ false → not (is_above (flip o)) ≡ true
unfolding is_above flip
flip-not_above above h = refl
flip-not_above below h = absurd (cc h)
flip-not_above equal h = absurd (cc h)

-- Of two findings the one or the other comes first.
pub at_most-total : (f g : Fields) → at_most f g ≡ false → at_most g f ≡ true
unfolding at_most
at_most-total f g h =
    ap (λ (o : Order). not (is_above o)) (flip-cmp_key f g) ∙ flip-not_above (cmp_key f g) h
