-- ===== src/Findings/Surfaced.antt =====
-- What `filter_findings_for_publish` surfaces, in the words of its documentation.
use mathlib.Core.List.{Perm}
use loupfeed_agents.Common.{
  ℕ, min, leb, ◌<◌, String, ◌≡◌, refl, sym, ap, ◌∙◌, subst, Bool, true, false, ◌&&◌, ◌||◌, not,
  if◌then◌else◌, List, [], ◌∷◌, ◌++◌, length, drop, length-take, Bool-cases, ◌⊎◌, inl, inr, str_eq,
  eq_iff, arith,
}
use loupfeed_agents.Json.{Fields, get, has, eq_text, text_or}
use loupfeed_agents.Findings.Rank.{
  Order, below, equal, above, then_by, cmp_ℕ, cmp_ℤ, cmp_text, severity_order, severity_rank,
  start_line, cmp_key, is_above, at_most,
}
use loupfeed_agents.Findings.Select.{
  eligible, eligible_findings, sort, filter_findings_for_publish, Ordered, sort-Perm, sort-Ordered,
  length-sort, take-drop,
}

-- the severities at or above a threshold; all of them, and any other text, for the lowest
abbrev pub is_at_or_above : String → String → Bool
is_at_or_above threshold severity =
    if str_eq threshold "critical"
    then str_eq severity "critical"
    else if str_eq threshold "high"
    then str_eq severity "high" || str_eq severity "critical"
    else if str_eq threshold "medium"
    then str_eq severity "medium" || (str_eq severity "high" || str_eq severity "critical")
    else true

abbrev pub severity_of : Fields → String
severity_of f = text_or (get "severity" f) "low"

-- The finding is open, as is one without a status, and severe enough.
abbrev pub is_surfaced : String → Fields → Bool
is_surfaced threshold f =
    (not (has "status" f) || eq_text (get "status" f) "open")
    && is_at_or_above threshold (severity_of f)

abbrev pub surfaced : String → List Fields → List Fields
surfaced threshold [] = []
surfaced threshold (f ∷ fs) =
    let rest = surfaced threshold fs in if is_surfaced threshold f then f ∷ rest else rest

-- the texts of the four severities are apart
apart : (s : String) → (str_eq s "medium" && (str_eq s "high" || str_eq s "critical")) ≡ false
apart s = elim (Bool-cases (str_eq s "medium")) [
  | inl h ↦
      let is : s ≡ "medium" = ground (arith, h, eq_iff s "medium") in
      subst
        (λ (t : String). (str_eq t "medium" && (str_eq t "high" || str_eq t "critical")) ≡ false)
        (sym is) refl
  | inr h ↦ rw h refl
]

apart_high : (s : String) → (str_eq s "high" && str_eq s "critical") ≡ false
apart_high s = elim (Bool-cases (str_eq s "high")) [
  | inl h ↦
      let is : s ≡ "high" = ground (arith, h, eq_iff s "high") in
      subst (λ (t : String). (str_eq t "high" && str_eq t "critical") ≡ false) (sym is) refl
  | inr h ↦ rw h refl
]

-- The numbers of the severities are in their order.
leb-severity_order : (t s : String) → leb (severity_order t) (severity_order s) ≡ is_at_or_above t s
unfolding severity_order
leb-severity_order t s = ground (arith, apart t, apart s, apart_high t, apart_high s)

eligible-is_surfaced : (t : String) (f : Fields) → eligible (severity_order t) f ≡ is_surfaced t f
unfolding eligible severity_rank
eligible-is_surfaced t f = rw (leb-severity_order t (severity_of f)) (
    by_status (has "status" f) (eq_text (get "status" f) "open") (is_at_or_above t (severity_of f)))
  where
    by_status : (h e b : Bool) → ((if h then e else true) && b) ≡ ((not h || e) && b)
    by_status h e b = ground arith

eligible_findings-surfaced :
    (t : String) (fs : List Fields) → eligible_findings (severity_order t) fs ≡ surfaced t fs
unfolding eligible_findings
eligible_findings-surfaced t [] = refl
eligible_findings-surfaced t (f ∷ fs) =
    rw (eligible-is_surfaced t f, eligible_findings-surfaced t fs) refl

-- The more severe finding comes first; of equally severe ones that with the smaller file name, and
-- in one file that with the smaller first line, where one without counts as at 0.
abbrev pub Precedes : Fields → Fields → Type 0
Precedes f g =
    (severity_order (severity_of g) < severity_order (severity_of f))
    ⊎ ((severity_order (severity_of g) ≡ severity_order (severity_of f))
        × ((cmp_text (text_or (get "file" f) "") (text_or (get "file" g) "") ≡ below)
            ⊎ ((cmp_text (text_or (get "file" f) "") (text_or (get "file" g) "") ≡ equal)
                × (is_above (cmp_ℤ (start_line f) (start_line g)) ≡ false))))

cmp_ℕ-below : (m n : ℕ) → cmp_ℕ m n ≡ below → m < n
unfolding cmp_ℕ
cmp_ℕ-below m n h = ground (arith, h)

cmp_ℕ-equal : (m n : ℕ) → cmp_ℕ m n ≡ equal → m ≡ n
unfolding cmp_ℕ
cmp_ℕ-equal m n h = ground (arith, h)

-- what a lexicographic comparison says that does not come out above
then_by-cases :
    (a b : Order)
    → not (is_above (then_by a b)) ≡ true
    → (a ≡ below) ⊎ ((a ≡ equal) × (not (is_above b) ≡ true))
unfolding then_by is_above
then_by-cases below b h = inl refl
then_by-cases equal b h = inr (refl, h)
then_by-cases above b h = absurd (cc h)

at_most-Precedes : (f g : Fields) → at_most f g ≡ true → Precedes f g
unfolding at_most cmp_key severity_rank
at_most-Precedes f g h =
    let sf = severity_order (severity_of f) in
    let sg = severity_order (severity_of g) in
    elim (then_by-cases (cmp_ℕ sg sf) _ h) [
      | inl less ↦ inl (cmp_ℕ-below sg sf less)
      | inr (same, rest) ↦ inr (
        cmp_ℕ-equal sg sf same,
        elim (then_by-cases (cmp_text (text_or (get "file" f) "") (text_or (get "file" g) "")) _
            rest) [
              | inl less ↦ inl less
              | inr (file, line) ↦
                  inr (file, not_true (is_above (cmp_ℤ (start_line f) (start_line g))) line)
            ],
      )
    ]
  where
    not_true : (b : Bool) → not b ≡ true → b ≡ false
    not_true b h = ground (arith, h)

-- Each finding precedes the next one.
abbrev pub InOrder : List Fields → Type 0
InOrder [] = Unit
InOrder (f ∷ []) = Unit
InOrder (f ∷ g ∷ fs) = Precedes f g × InOrder (g ∷ fs)

Ordered-InOrder : (fs : List Fields) → Ordered fs → InOrder fs
Ordered-InOrder [] o = tt
Ordered-InOrder (f ∷ []) o = tt
Ordered-InOrder (f ∷ g ∷ fs) o = (at_most-Precedes f g o.0, Ordered-InOrder (g ∷ fs) o.1)

-- The published findings are the first ones, up to the cap, of all findings that are open and at or
-- above the threshold: with those left out they are just these findings, each once, and all are in
-- order, the published ones first.
pub filter_findings_for_publish-InOrder :
    (findings : List Fields) (threshold : String) (cap : ℕ)
    → (rest : List Fields) × InOrder (filter_findings_for_publish findings threshold cap ++ rest)
      × Perm
          (filter_findings_for_publish findings threshold cap ++ rest)
          (surfaced threshold findings)
      × (length (filter_findings_for_publish findings threshold cap)
          ≡ min cap (length (surfaced threshold findings)))
unfolding filter_findings_for_publish
filter_findings_for_publish-InOrder findings threshold cap =
    let chosen = eligible_findings (severity_order threshold) findings in
    let same = eligible_findings-surfaced threshold findings in
    let whole = sym (take-drop cap (sort chosen)) in
    (
      drop cap (sort chosen),
      subst InOrder whole (Ordered-InOrder (sort chosen) (sort-Ordered chosen)),
      subst (λ (l : List Fields). Perm l (surfaced threshold findings)) whole
          (subst (Perm (sort chosen)) same (sort-Perm chosen)),
      length-take cap (sort chosen)
          ∙ ap (min cap) (length-sort chosen ∙ ap (λ (l : List Fields). length l) same),
    )
