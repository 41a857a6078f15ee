-- ===== src/Diff/Header.antt =====
-- The two regular expressions of agent/reviewer_diff.py, read from the left. The digits of a diff
-- are ASCII.
use Prim.Native.String.{[], ◌∷◌}
use loupfeed_agents.Common.{
  ◌>>=◌, strip_prefix, ℕ, ◌+◌, ◌-◌, ◌*◌, ◌≤◌, code, String, Char, Bool, ◌&&◌, ◌||◌, leb, ◌==◌,
  if◌then◌else◌, ◌≡◌, arith, max, Option, none, some, nonempty,
}

-- `.+?` up to the first " b/" that has something behind it
unfoldable pub seek_b : String → Option String
unfolding strip_prefix
seek_b [] = none
seek_b (c ∷ s) = elim (strip_prefix " b/" (c ∷ s)) [
  | none ↦ seek_b s
  | some r ↦ if nonempty r then some r else none
]

after_first : String → Option String
unfolding seek_b
after_first [] = none
after_first (c ∷ s) = seek_b s

-- `_DIFF_FILE_HEADER_RE.match(line)`, with its group `b`
unfoldable pub file_header : String → Option String
unfolding after_first strip_prefix
file_header line = do rest ← strip_prefix "diff --git a/" line; after_first rest

unfoldable pub is_digit : Char → Bool
is_digit c = leb b'0' (code c) && leb (code c) b'9'

-- the digits at the front, on top of what is read
digits : ℕ → String → ℕ × String
unfolding is_digit
digits n [] = (n, "")
digits n (c ∷ s) =
    let more = digits (n * 10 + (code c - 48)) s in if is_digit c then more else (n, c ∷ s)

-- `(\d+)`
number : String → Option (ℕ × String)
unfolding digits
number [] = none
number (c ∷ s) = if is_digit c then some (digits 0 (c ∷ s)) else none

-- `(?:,(\d+))?`, read by `int(… or "1")`
count : String → Option (ℕ × String)
unfolding number strip_prefix
count s = elim (strip_prefix "," s) [ none ↦ some (1, s) | some r ↦ number r ]

-- `current_meta`
pub record Meta : Type 0 where
  pub old_start : ℕ
  pub old_end : ℕ
  pub new_start : ℕ
  pub new_end : ℕ

-- `_HUNK_HEADER_RE.match(line)`, with the line numbers that are computed from its groups
unfoldable pub hunk_header : String → Option Meta
unfolding count
hunk_header line = do
  a ← strip_prefix "@@ -" line
  (old_start, b) ← number a
  (old_count, c) ← count b
  d ← strip_prefix " +" c
  (new_start, e) ← number d
  (new_count, f) ← count e
  g ← strip_prefix " @@" f
  some (record {
    old_start = old_start;
    old_end = old_start + max (old_count - 1) 0;
    new_start = new_start;
    new_end = new_start + max (new_count - 1) 0;
  })

-- A hunk never ends before it starts.
pub hunk_header-ordered :
    (line : String) (m : Meta)
    → hunk_header line ≡ some m
    → (m.old_start ≤ m.old_end) × (m.new_start ≤ m.new_end)
unfolding hunk_header
hunk_header-ordered line m h = ground arith

-- The characters that start a line of a hunk's body.
abbrev pub is_body_mark : Char → Bool
is_body_mark c = let n = code c in n == b' ' || n == b'+' || n == b'-' || n == b'\\'
