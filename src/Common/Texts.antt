-- ===== src/Common/Texts.antt =====
-- Python's `str`, as the native `String`: length in characters, slices, joins.
use Prim.Native.Nat.{ℕ, zero, suc, ◌+◌, ◌/◌, ◌%◌}
use Prim.Native.String.{String}
use mathlib.Core.Bool.{Bool, true, false, ◌||◌}
use Prim.Native.Char.{code}
use mathlib.Core.Path.{◌≡◌, refl}
use mathlib.Core.Option.{Option, none, some}
use native.Mathlib.Omega.{arith}
use loupfeed_agents.Common.Tests.{◌==◌, leb, if◌then◌else◌, is_some}
use mathlib.Core.List as L
use mathlib.Core.List.{List}
use text.Mathlib.Text.{◌==◌ as str_eq}

-- `len(s)`
abbrev pub str_len : String → ℕ
str_len String.[] = 0
str_len (String.◌∷◌ c s) = suc (str_len s)

-- `s[:n]`
abbrev pub str_take : ℕ → String → String
str_take zero s = ""
str_take (suc n) String.[] = ""
str_take (suc n) (String.◌∷◌ c s) = String.◌∷◌ c (str_take n s)

-- `a + b`
infixl 65 ◌⧺◌
abbrev pub ◌⧺◌ : String → String → String
String.[] ⧺ t = t
String.◌∷◌ c s ⧺ t = String.◌∷◌ c (s ⧺ t)

-- `sep.join(parts)`
abbrev pub join : String → List String → String
join sep L.[] = ""
join sep (L.◌∷◌ s L.[]) = s
join sep (L.◌∷◌ s (L.◌∷◌ t ts)) = s ⧺ (sep ⧺ join sep (L.◌∷◌ t ts))

-- `s in items`
abbrev pub mem_str : String → List String → Bool
mem_str s L.[] = false
mem_str s (L.◌∷◌ t ts) = str_eq s t || mem_str s ts

-- the truth value of a text
abbrev pub nonempty : String → Bool
nonempty String.[] = false
nonempty (String.◌∷◌ c s) = true

-- the rest of `s` behind the prefix `p`
unfoldable pub strip_prefix : String → String → Option String
strip_prefix String.[] s = some s
strip_prefix (String.◌∷◌ c p) String.[] = none
strip_prefix (String.◌∷◌ c p) (String.◌∷◌ d s) = if code c == code d then strip_prefix p s else none

-- `s.startswith(p)`
unfoldable pub has_prefix : String → String → Bool
unfolding strip_prefix
has_prefix p s = is_some (strip_prefix p s)

-- `p in s`
unfoldable pub is_infix : String → String → Bool
unfolding has_prefix
is_infix p String.[] = has_prefix p ""
is_infix p (String.◌∷◌ c s) = has_prefix p (String.◌∷◌ c s) || is_infix p s

digit_text : ℕ → String
digit_text n =
    if n == 0
    then "0"
    else if n == 1
    then "1"
    else if n == 2
    then "2"
    else if n == 3
    then "3"
    else if n == 4
    then "4"
    else if n == 5
    then "5"
    else if n == 6
    then "6"
    else if n == 7
    then "7"
    else if n == 8
    then "8"
    else "9"

decimal : ℕ → ℕ → String
unfolding digit_text
decimal zero n = ""
decimal (suc fuel) n =
    let front = decimal fuel (n / 10) in
    if leb n 9 then digit_text n else front ⧺ digit_text (n % 10)

-- `str(n)`; a number has no more digits than its value and one
unfoldable pub show_ℕ : ℕ → String
unfolding decimal
show_ℕ n = decimal (n + 1) n

strip_prefix-append : (p s : String) → strip_prefix p (p ⧺ s) ≡ some s
unfolding strip_prefix
strip_prefix-append String.[] s = refl
strip_prefix-append (String.◌∷◌ c p) s = ground (arith, strip_prefix-append p s)

-- A text contains what it starts with.
pub is_infix-append : (p s : String) → is_infix p (p ⧺ s) ≡ true
unfolding is_infix
is_infix-append String.[] String.[] = refl
is_infix-append String.[] (String.◌∷◌ d s) = refl
is_infix-append (String.◌∷◌ c p) s =
    let e : strip_prefix (String.◌∷◌ c p) (String.◌∷◌ c p ⧺ s) ≡ some s =
      strip_prefix-append (String.◌∷◌ c p) s in
    rw e
