-- ===== src/Schedules/Cron.antt =====
-- Cron expressions: `normalize_cron_schedule` and the checks of its fields.
use Prim.Native.Char.{Char, code}
use Prim.Native.String.{[] as empty_text, ◌∷◌ as char_then}
use loupfeed_agents.Common.{
  ℕ, zero, suc, ◌+◌, ◌-◌, ◌*◌, String, Bool, true, false, ◌&&◌, not, Option, none, some, List, [],
  ◌∷◌, length, leb, if◌then◌else◌, ◌==◌, nonempty, strip, words, join, ◌⧺◌, str_eq, show_ℕ,
}
use loupfeed_agents.Json.{ℤ, pos, negsuc}
use loupfeed_agents.Autofix.Prompts.{show_ℤ}

-- a character in front of the first piece
add_front : Char → List String → List String
add_front c [] = char_then c empty_text ∷ []
add_front c (s ∷ ss) = char_then c s ∷ ss

-- `s.split(sep)`
unfoldable pub split_on : ℕ → String → List String
unfolding add_front
split_on sep empty_text = "" ∷ []
split_on sep (char_then c s) =
    let rest = split_on sep s in if code c == sep then "" ∷ rest else add_front c rest

-- `s.partition(sep)`: the text before, and the text behind where the separator is there
unfoldable pub partition : ℕ → String → String × Option String
partition sep empty_text = ("", none)
partition sep (char_then c s) =
    let rest = partition sep s in
    if code c == sep then ("", some s) else (char_then c rest.0, rest.1)

-- the digits of a number, with underscores between two of them; `last` says that a digit stands before
unfoldable pub digits : ℕ → Bool → String → Option ℕ
digits n last empty_text = if last then some n else none
digits n last (char_then c s) =
    let more = digits (n * 10 + (code c - 48)) true s in
    let gap = digits n false s in
    if leb 48 (code c) && leb (code c) 57 then more else if code c == 95 && last then gap else none

negated : Option ℕ → Option ℤ
negated none = none
negated (some zero) = some (pos zero)
negated (some (suc n)) = some (negsuc n)

positive : Option ℕ → Option ℤ
positive none = none
positive (some n) = some (pos n)

-- `int(s)` of a text without white space
unfoldable pub int_of_text : String → Option ℤ
unfolding digits negated positive
int_of_text empty_text = none
int_of_text (char_then c s) =
    if code c == 45
    then negated (digits 0 false s)
    else if code c == 43
    then positive (digits 0 false s)
    else positive (digits 0 false (char_then c s))

-- `_validate_cron_value`: the number, or the message of the error
pub data Checked (A : Type 0) : Type 0 where
  valid : A → Checked A
  invalid : String → Checked A

in_range : ℤ → ℕ → ℕ → Bool
in_range (pos n) low high = leb low n && leb n high
in_range (negsuc n) low high = false

unfoldable pub validate_cron_value : String → ℕ → ℕ → Checked ℤ
unfolding int_of_text in_range show_ℕ show_ℤ
validate_cron_value value low high = elim (int_of_text value) [
  | none ↦ invalid "cron fields must use numbers, *, ranges, steps, or lists"
  | some n ↦
      if in_range n low high
      then valid n
      else invalid (
          "cron value "
          ⧺ (show_ℤ n ⧺ (" outside allowed range " ⧺ (show_ℕ low ⧺ ("-" ⧺ show_ℕ high)))))
]

-- the checks after one another; a check that passes is `none`
and_then : Option String → Option String → Option String
and_then none second = second
and_then (some e) second = some e

error_in : Checked ℤ → Option String
error_in (valid n) = none
error_in (invalid e) = some e

ascending : Checked ℤ → Checked ℤ → Option String
ascending (valid (pos a)) (valid (pos b)) =
    if leb a b then none else some "cron ranges must be ascending"
ascending a b = none

-- the part of a segment in front of the step
unfoldable pub validate_base : String × Option String → ℕ → ℕ → Option String
unfolding validate_cron_value and_then error_in ascending
validate_base (start, none) low high = error_in (validate_cron_value start low high)
validate_base (start, some finish) low high =
    let first = validate_cron_value start low high in
    let last = validate_cron_value finish low high in
    and_then (error_in first) (and_then (error_in last) (ascending first last))

validate_step : Option String → ℕ → Option String
unfolding validate_cron_value error_in
validate_step none high = none
validate_step (some step) high = error_in (validate_cron_value step 1 high)

unfoldable pub validate_segment : String → ℕ → ℕ → Option String
unfolding partition validate_step validate_base and_then
validate_segment segment low high =
    let (base, step) = partition 47 segment in
    if not (nonempty segment)
    then some "cron fields cannot contain empty list segments"
    else and_then (validate_step step high)
        (if str_eq base "*" then none else validate_base (partition 45 base) low high)

unfoldable pub validate_segments : List String → ℕ → ℕ → Option String
unfolding validate_segment and_then
validate_segments [] low high = none
validate_segments (s ∷ ss) low high =
    and_then (validate_segment s low high) (validate_segments ss low high)

-- `_validate_cron_field`
unfoldable pub validate_cron_field : String → ℕ → ℕ → Option String
unfolding split_on validate_segments
validate_cron_field field low high = validate_segments (split_on 44 field) low high

-- `_CRON_FIELD_RANGES`
abbrev pub cron_field_ranges : List (ℕ × ℕ)
cron_field_ranges = (0, 59) ∷ (0, 23) ∷ (1, 31) ∷ (1, 12) ∷ (0, 7) ∷ []

-- `zip`, with the check of each field
unfoldable pub validate_fields : List String → List (ℕ × ℕ) → Option String
unfolding validate_cron_field and_then
validate_fields (part ∷ parts) ((low, high) ∷ ranges) =
    and_then (validate_cron_field part low high) (validate_fields parts ranges)
validate_fields parts ranges = none

unfoldable pub checked_schedule : String → Option String → Checked String
checked_schedule value none = valid value
checked_schedule value (some e) = invalid e

-- behind the white space
unfoldable pub check_schedule : String → Checked String
unfolding split_on validate_fields checked_schedule
check_schedule value =
    if length (split_on 32 value) == 5
    then checked_schedule value (validate_fields (split_on 32 value) cron_field_ranges)
    else invalid "schedule must be a five-field cron expression"

unfoldable pub normalize_cron_schedule : String → Checked String
unfolding words strip check_schedule
normalize_cron_schedule raw = check_schedule (join " " (words (strip raw)))
