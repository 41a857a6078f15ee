-- ===== src/Findings/Coerce.antt =====
-- Which values are read as findings: `_coerce_finding`, `_coerce_findings_list`.
use loupfeed_agents.Common.{
  ◌≡◌, refl, true, false, Option, none, some, List, [], ◌∷◌, map, if◌then◌else◌, arith, All,
  Bool-cases, inl, inr,
}
use loupfeed_agents.Json.{
  Value, list, dict, Fields, get, is_str, list_of, items_of, list_of-items_of,
}

unfoldable pub coerce_finding : Value → Option Fields
unfolding get is_str
coerce_finding (dict d) = if is_str (get "id" d) then some d else none
coerce_finding _ = none

unfoldable pub coerce_entries : List Value → List Fields
unfolding coerce_finding
coerce_entries [] = []
coerce_entries (v ∷ vs) = elim (coerce_finding v) [
  | none ↦ coerce_entries vs
  | some f ↦ f ∷ coerce_entries vs
]

-- `_coerce_findings_list`
unfoldable pub coerce_findings_list : Value → List Fields
unfolding coerce_entries list_of
coerce_findings_list (list l) = coerce_entries (list_of l)
coerce_findings_list _ = []

-- The list of findings as it is stored.
abbrev pub findings_value : List Fields → Value
findings_value fs = list (items_of (map (λ f. dict f) fs))

abbrev pub HasId : Fields → Type 0
HasId f = is_str (get "id" f) ≡ true

coerce_entries-hit :
    (d : Fields) (vs : List Value) → HasId d → coerce_entries (dict d ∷ vs) ≡ d ∷ coerce_entries vs
unfolding coerce_entries coerce_finding
coerce_entries-hit d vs h = ground (arith, h)

coerce_entries-miss :
    (d : Fields) (vs : List Value)
    → is_str (get "id" d) ≡ false
    → coerce_entries (dict d ∷ vs) ≡ coerce_entries vs
unfolding coerce_entries coerce_finding
coerce_entries-miss d vs h = ground (arith, h)

coerce_entries-none :
    (v : Value) (vs : List Value)
    → coerce_finding v ≡ none
    → coerce_entries (v ∷ vs) ≡ coerce_entries vs
unfolding coerce_entries
coerce_entries-none v vs h = rw (h, coerce_entries)

coerce_entries-HasId : (vs : List Value) → All HasId (coerce_entries vs)
coerce_entries-HasId [] = unfold coerce_entries in tt
coerce_entries-HasId (dict d ∷ vs) = elim (Bool-cases (is_str (get "id" d))) [
  | inl h ↦ rw (coerce_entries-hit d vs h) (h, coerce_entries-HasId vs)
  | inr h ↦ rw (coerce_entries-miss d vs h) (coerce_entries-HasId vs)
]
coerce_entries-HasId (v ∷ vs) =
    rw (coerce_entries-none v vs (unfold coerce_finding in refl)) (coerce_entries-HasId vs)

pub coerce_findings_list-HasId : (v : Value) → All HasId (coerce_findings_list v)
unfolding coerce_findings_list
coerce_findings_list-HasId (list l) = coerce_entries-HasId (list_of l)
coerce_findings_list-HasId _ = tt

coerce_entries-map : (fs : List Fields) → All HasId fs → coerce_entries (map (λ f. dict f) fs) ≡ fs
coerce_entries-map [] h = unfold coerce_entries in refl
coerce_entries-map (f ∷ fs) h =
    rw (coerce_entries-hit f (map (λ d. dict d) fs) h.0, coerce_entries-map fs h.1)

-- Findings with an id come back from the stored list as they were.
pub coerce-findings_value :
    (fs : List Fields) → All HasId fs → coerce_findings_list (findings_value fs) ≡ fs
unfolding coerce_findings_list
coerce-findings_value fs h = rw list_of-items_of (coerce_entries-map fs h)
