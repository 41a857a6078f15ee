-- ===== src/Findings/Titles.antt =====
-- `clip_suggestion` and `normalize_finding_title`.
use Prim.Native.String.{[], ◌∷◌}
use loupfeed_agents.Common.{
  ℕ, zero, suc, ◌+◌, ◌-◌, ◌≤◌, code, String, ◌≡◌, Bool, true, false, ◌&&◌, not, Option, none, some,
  ltb, ◌==◌, if◌then◌else◌, ◌⧺◌, nonempty, str_len, str_take, join, strip, rstrip, words, arith,
  Bool-cases, inl, inr,
}

abbrev pub max_suggestion_lines : ℕ
max_suggestion_lines = 4

abbrev pub max_finding_title_length : ℕ
max_finding_title_length = 120

abbrev pub default_finding_title : String
default_finding_title = "Code review finding"

-- `s.count("\n")`
unfoldable pub count_breaks : String → ℕ
count_breaks [] = 0
count_breaks (c ∷ s) = if code c == 10 then count_breaks s + 1 else count_breaks s

-- `clip_suggestion`: what is kept, and whether it was dropped
unfoldable pub clip_suggestion : Option String → Option String × Bool
unfolding count_breaks
clip_suggestion none = (none, false)
clip_suggestion (some s) =
    if not (nonempty s)
    then (some s, false)
    else if ltb max_suggestion_lines (count_breaks s + 1)
    then (none, true)
    else (some s, false)

-- `s.split("\n", 1)[0]`
unfoldable pub first_line : String → String
first_line [] = ""
first_line (c ∷ s) = let rest = first_line s in if code c == 10 then "" else c ∷ rest

title_text : Option String → String
title_text none = ""
title_text (some t) = strip t

raw_title : Option String → String → String
unfolding title_text first_line
raw_title title description =
    if not (nonempty (title_text title)) && nonempty description
    then strip (first_line (strip description))
    else title_text title

-- behind `compact`
unfoldable pub fit_title : String → String
fit_title compact =
    if not (nonempty compact)
    then default_finding_title
    else if ltb max_finding_title_length (str_len compact)
    then rstrip (str_take (max_finding_title_length - 3) compact) ⧺ "..."
    else compact

-- `normalize_finding_title`
unfoldable pub normalize_finding_title : Option String → String → String
unfolding raw_title fit_title
normalize_finding_title title description =
    fit_title (join " " (words (raw_title title description)))

str_len-append : (a b : String) → str_len (a ⧺ b) ≡ str_len a + str_len b
str_len-append [] b = omega arith
str_len-append (c ∷ a) b = omega (arith, str_len-append a b)

str_len-take : (n : ℕ) (s : String) → str_len (str_take n s) ≤ n
str_len-take zero s = omega arith
str_len-take (suc n) [] = omega arith
str_len-take (suc n) (c ∷ s) = omega (arith, str_len-take n s)

str_len-rstrip : (s : String) → str_len (rstrip s) ≤ str_len s
unfolding rstrip
str_len-rstrip [] = omega arith
str_len-rstrip (c ∷ s) = ground (arith, str_len-rstrip s)

str_len-pos : (s : String) → nonempty s ≡ true → 1 ≤ str_len s
str_len-pos [] h = cc
str_len-pos (c ∷ s) h = omega arith

within : (a b : ℕ) → ltb a b ≡ false → b ≤ a
within a b h = ground arith

cut_length :
    (s : String)
    → (1 ≤ str_len (rstrip (str_take 117 s) ⧺ "..."))
      × (str_len (rstrip (str_take 117 s) ⧺ "...") ≤ max_finding_title_length)
cut_length s =
    let size : str_len (rstrip (str_take 117 s) ⧺ "...") ≡ str_len (rstrip (str_take 117 s)) + 3 =
      str_len-append (rstrip (str_take 117 s)) "..." in
    (omega (arith, size), omega (arith, size, str_len-rstrip (str_take 117 s), str_len-take 117 s))

fit_title-length :
    (s : String) → (1 ≤ str_len (fit_title s)) × (str_len (fit_title s) ≤ max_finding_title_length)
unfolding fit_title
fit_title-length s = elim (Bool-cases (nonempty s)) [
  | inr blank ↦ rw blank (omega arith, omega arith)
  | inl filled ↦ elim (Bool-cases (ltb max_finding_title_length (str_len s))) [
    | inl long ↦ rw filled (rw long (cut_length s))
    | inr short ↦ rw filled (rw short (str_len-pos s filled, within _ _ short))
  ]
]

-- Whatever the title and the description, the headline is not empty and has at most 120 characters.
pub normalize_finding_title-length :
    (title : Option String) (description : String)
    → (1 ≤ str_len (normalize_finding_title title description))
      × (str_len (normalize_finding_title title description) ≤ max_finding_title_length)
unfolding normalize_finding_title
normalize_finding_title-length title description =
    fit_title-length (join " " (words (raw_title title description)))
