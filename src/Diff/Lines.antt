-- ===== src/Diff/Lines.antt =====
-- `str.splitlines` of agent/reviewer_diff.py.
use Prim.Native.String.{[], ◌∷◌}
use Prim.Native.Char.{Char}
use mathlib.Core.List as L
use loupfeed_agents.Common.{
  code, String, Bool, false, ◌&&◌, ◌||◌, List, leb, ◌==◌, if◌then◌else◌, ◌≡◌, refl, ap, ◌⧺◌, All,
}

-- the characters at which Python breaks a line
unfoldable pub is_break : Char → Bool
is_break c =
    let n = code c in
    (leb 10 n && leb n 13) || (leb 28 n && leb n 30) || n == 133 || n == 8232 || n == 8233

starts_with_feed : String → Bool
starts_with_feed [] = false
starts_with_feed (c ∷ s) = code c == 10

-- one more character at the front of the first line
abbrev pub add_char : Char → List String → List String
add_char c L.[] = L.◌∷◌ (c ∷ []) L.[]
add_char c (L.◌∷◌ l ls) = L.◌∷◌ (c ∷ l) ls

-- `s.splitlines()`: "\r\n" is one break, and a break at the end opens no line
unfoldable pub splitlines : String → List String
unfolding is_break starts_with_feed
splitlines [] = L.[]
splitlines (c ∷ s) =
    let rest = splitlines s in
    if is_break c
    then (if code c == 13 && starts_with_feed s then rest else L.◌∷◌ "" rest)
    else add_char c rest

-- A line that no break divides.
abbrev pub IsLine : String → Type 0
IsLine [] = Unit
IsLine (c ∷ s) = (is_break c ≡ false) × IsLine s

-- The lines, each ended by "\n".
abbrev pub unlines : List String → String
unlines L.[] = ""
unlines (L.◌∷◌ l ls) = l ⧺ ("\n" ⧺ unlines ls)

splitlines-line : (l s : String) → IsLine l → splitlines (l ⧺ ("\n" ⧺ s)) ≡ L.◌∷◌ l (splitlines s)
unfolding splitlines
splitlines-line [] s h = refl
splitlines-line (c ∷ l) s h = simp (h.0, splitlines-line l s h.1)

-- Lines that hold no break come back from their text as they were.
pub splitlines-unlines : (ls : List String) → All IsLine ls → splitlines (unlines ls) ≡ ls
unfolding splitlines
splitlines-unlines L.[] h = refl
splitlines-unlines (L.◌∷◌ l ls) h =
    rw (splitlines-line l (unlines ls) h.0)
      (ap (λ (r : List String). L.◌∷◌ l r) (splitlines-unlines ls h.1))
