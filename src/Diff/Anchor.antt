-- ===== src/Diff/Anchor.antt =====
-- The line set of a diff, the test that anchors a finding to it, and the hunk that is stored with
-- the finding: `compute_diff_line_set`, `is_range_in_diff`, `extract_diff_hunk`.
use loupfeed_agents.Common.{
  ℕ, zero, suc, ◌+◌, ◌-◌, String, Bool, true, false, ◌&&◌, ◌||◌, Option, none, some, List, [], ◌∷◌,
  ◌++◌, all, leb, ◌==◌, str_eq, if◌then◌else◌, null,
}
use loupfeed_agents.Diff.Parse.{DiffHunk, FileDiff, parse_unified_diff}

-- `DiffSide`
pub data Side : Type 0 where
  left right : Side

-- `{"RIGHT": {…}, "LEFT": {…}}`; the sets are lists, read by membership only
pub record Sides : Type 0 where
  pub right : List ℕ
  pub left : List ℕ

abbrev pub no_lines : Sides
no_lines = record { right = []; left = [] }

-- the dict of the sides by file
abbrev pub LineSet : Type 0
LineSet = List (String × Sides)

abbrev pub range_from : ℕ → ℕ → List ℕ
range_from a zero = []
range_from a (suc n) = a ∷ range_from (a + 1) n

-- `range(a, b + 1)`
abbrev pub lines_between : ℕ → ℕ → List ℕ
lines_between a b = range_from a (b + 1 - a)

unfoldable pub contains : ℕ → List ℕ → Bool
contains n [] = false
contains n (m ∷ ms) = n == m || contains n ms

-- `line_set.get(file)`
unfoldable pub lookup : String → LineSet → Option Sides
lookup file [] = none
lookup file ((f, sides) ∷ rest) = if str_eq f file then some sides else lookup file rest

-- one turn of the loop over hunks, on the dict that `setdefault` returned
unfoldable pub add_hunk : Sides → DiffHunk → Sides
add_hunk sides h = record {
  right = sides.right ++ lines_between h.new_start h.new_end;
  left = sides.left ++ lines_between h.old_start h.old_end;
}

unfoldable pub add_hunks : Sides → List DiffHunk → Sides
unfolding add_hunk
add_hunks sides [] = sides
add_hunks sides (h ∷ hs) = add_hunks (add_hunk sides h) hs

-- `out.setdefault(file, …)`, and the lines of the file added in place
unfoldable pub add_file_lines : FileDiff → LineSet → LineSet
unfolding add_hunks
add_file_lines fd [] = (fd.file, add_hunks no_lines fd.hunks) ∷ []
add_file_lines fd ((f, sides) ∷ rest) =
    if str_eq f fd.file
    then (f, add_hunks sides fd.hunks) ∷ rest
    else (f, sides) ∷ add_file_lines fd rest

unfoldable pub line_set_from : LineSet → List FileDiff → LineSet
unfolding add_file_lines
line_set_from out [] = out
line_set_from out (fd ∷ fds) = line_set_from (add_file_lines fd out) fds

unfoldable pub compute_diff_line_set : String → LineSet
unfolding line_set_from parse_unified_diff
compute_diff_line_set text = line_set_from [] (parse_unified_diff text)

-- `file_sides.get(side)`
abbrev pub side_lines : Side → Sides → List ℕ
side_lines Side.right s = s.right
side_lines Side.left s = s.left

unfoldable pub is_range_in_diff : LineSet → String → Option ℕ → Option ℕ → Side → Bool
unfolding lookup contains
is_range_in_diff line_set file none none side = true
is_range_in_diff line_set file none (some e) side = false
is_range_in_diff line_set file (some s) none side = false
is_range_in_diff line_set file (some s) (some e) side = elim (lookup file line_set) [
  | none ↦ false
  | some sides ↦
      if null (side_lines side sides)
      then false
      else all (λ line. contains line (side_lines side sides)) (lines_between s e)
]

-- `[fd for fd in … if fd.file == file][0]`
unfoldable pub find_file : String → List FileDiff → Option FileDiff
find_file file [] = none
find_file file (fd ∷ fds) = if str_eq fd.file file then some fd else find_file file fds

unfoldable pub overlaps : ℕ → ℕ → DiffHunk → Bool
overlaps s e h = leb h.new_start e && leb s h.new_end

unfoldable pub find_overlap : ℕ → ℕ → List DiffHunk → Option String
unfolding overlaps
find_overlap s e [] = none
find_overlap s e (h ∷ hs) = if overlaps s e h then some h.body else find_overlap s e hs

-- the part of `extract_diff_hunk` behind the choice of the file
unfoldable pub hunk_in : List DiffHunk → Option ℕ → Option ℕ → Option String
unfolding find_overlap
hunk_in [] s e = none
hunk_in (h ∷ hs) (some s) (some e) = find_overlap s e (h ∷ hs)
hunk_in (h ∷ hs) none e = some h.body
hunk_in (h ∷ hs) (some s) none = some h.body

unfoldable pub extract_diff_hunk : String → String → Option ℕ → Option ℕ → Option String
unfolding find_file hunk_in parse_unified_diff
extract_diff_hunk text file s e = elim (find_file file (parse_unified_diff text)) [
  | none ↦ none
  | some fd ↦ hunk_in fd.hunks s e
]
