-- ===== src/Diff/Cover.antt =====
-- The line set against the hunks that it was computed from.
use loupfeed_agents.Common.{
  ℕ, zero, suc, ◌+◌, ◌-◌, ◌≤◌, String, ◌≡◌, refl, sym, ap, ◌∙◌, Bool, false, ◌&&◌, ◌||◌, none, some,
  List, [], ◌∷◌, ◌++◌, all, any, leb, str_eq, eq_iff, if◌then◌else◌, null, arith, inl, inr,
  Option-cases,
}
use mathlib.Core.Path.{fun_ext}
use loupfeed_agents.Diff.Parse.{DiffHunk, FileDiff, parse_unified_diff}
use loupfeed_agents.Diff.Anchor.{
  Side, Sides, no_lines, LineSet, range_from, lines_between, contains, lookup, add_hunk, add_hunks,
  add_file_lines, line_set_from, compute_diff_line_set, side_lines, is_range_in_diff,
}

-- Whether a hunk covers a line of a side, by its numbers.
unfoldable pub covers : Side → ℕ → DiffHunk → Bool
covers Side.right n h = leb h.new_start n && leb n h.new_end
covers Side.left n h = leb h.old_start n && leb n h.old_end

-- Whether some hunk of some entry for the file does.
unfoldable pub is_covered : List FileDiff → String → Side → ℕ → Bool
unfolding covers
is_covered fds file side n = any (λ fd. str_eq fd.file file && any (covers side n) fd.hunks) fds

contains-append :
    (n : ℕ) (xs ys : List ℕ) → contains n (xs ++ ys) ≡ (contains n xs || contains n ys)
unfolding contains
contains-append n [] ys = refl
contains-append n (x ∷ xs) ys = ground (arith, contains-append n xs ys)

contains-range_from : (n a k : ℕ) → contains n (range_from a k) ≡ (leb a n && (leb (n + 1) (a + k)))
unfolding contains
contains-range_from n a zero = ground arith
contains-range_from n a (suc k) = ground (arith, contains-range_from n (a + 1) k)

contains-lines_between : (n a b : ℕ) → contains n (lines_between a b) ≡ (leb a n && leb n b)
contains-lines_between n a b = ground (arith, contains-range_from n a (b + 1 - a))

side-add_hunk :
    (side : Side) (n : ℕ) (sides : Sides) (h : DiffHunk)
    → contains n (side_lines side (add_hunk sides h))
      ≡ (contains n (side_lines side sides) || covers side n h)
unfolding add_hunk covers
side-add_hunk Side.right n sides h =
    contains-append n sides.right _ ∙ rw (contains-lines_between n h.new_start h.new_end)
side-add_hunk Side.left n sides h =
    contains-append n sides.left _ ∙ rw (contains-lines_between n h.old_start h.old_end)

||_assoc : (a b c : Bool) → ((a || b) || c) ≡ (a || (b || c))
||_assoc a b c = ground arith

side-add_hunks :
    (side : Side) (n : ℕ) (sides : Sides) (hs : List DiffHunk)
    → contains n (side_lines side (add_hunks sides hs))
      ≡ (contains n (side_lines side sides) || any (covers side n) hs)
unfolding add_hunks
side-add_hunks side n sides [] = ground arith
side-add_hunks side n sides (h ∷ hs) =
    rw (side-add_hunks side n (add_hunk sides h) hs, side-add_hunk side n sides h)
      (||_assoc (contains n (side_lines side sides)) (covers side n h) (any (covers side n) hs))

-- Whether the line set holds a line.
held : LineSet → String → Side → ℕ → Bool
held ls file side n = elim (lookup file ls) [
  | none ↦ false
  | some sides ↦ contains n (side_lines side sides)
]

no_lines-empty : (side : Side) (n : ℕ) → contains n (side_lines side no_lines) ≡ false
unfolding contains
no_lines-empty Side.right n = refl
no_lines-empty Side.left n = refl

held-add_file_lines :
    (file : String) (side : Side) (n : ℕ) (fd : FileDiff) (ls : LineSet)
    → held (add_file_lines fd ls) file side n
      ≡ (held ls file side n || (str_eq fd.file file && any (covers side n) fd.hunks))
unfolding held lookup add_file_lines
held-add_file_lines file side n fd [] =
    ground (arith, no_lines-empty side n, side-add_hunks side n no_lines fd.hunks)
held-add_file_lines file side n fd ((f, sides) ∷ ls) = ground (
  arith,
  eq_iff f fd.file,
  eq_iff f file,
  eq_iff fd.file file,
  side-add_hunks side n sides fd.hunks,
  held-add_file_lines file side n fd ls,
)

held-line_set_from :
    (file : String) (side : Side) (n : ℕ) (out : LineSet) (fds : List FileDiff)
    → held (line_set_from out fds) file side n
      ≡ (held out file side n || is_covered fds file side n)
unfolding line_set_from is_covered
held-line_set_from file side n out [] = ground arith
held-line_set_from file side n out (fd ∷ fds) =
    rw
      (
        held-line_set_from file side n (add_file_lines fd out) fds,
        held-add_file_lines file side n fd out,
      )
      (||_assoc (held out file side n) (str_eq fd.file file && any (covers side n) fd.hunks)
        (is_covered fds file side n))

held-compute :
    (text file : String) (side : Side) (n : ℕ)
    → held (compute_diff_line_set text) file side n
      ≡ is_covered (parse_unified_diff text) file side n
unfolding compute_diff_line_set
held-compute text file side n =
    held-line_set_from file side n [] (parse_unified_diff text) ∙ unfold held lookup in refl

all_none : (s e : ℕ) → s ≤ e → all (λ n. false) (lines_between s e) ≡ false
all_none s e h = let size : e + 1 - s ≡ suc (e - s) = omega arith in rw size

-- The test for an empty set changes nothing at a range with a line.
null_test :
    (xs : List ℕ) (s e : ℕ)
    → s ≤ e
    → (if null xs then false else all (λ line. contains line xs) (lines_between s e))
      ≡ all (λ line. contains line xs) (lines_between s e)
null_test [] s e h = unfold contains in sym (all_none s e h)
null_test (x ∷ xs) s e h = refl

range-held :
    (ls : LineSet) (file : String) (s e : ℕ) (side : Side)
    → s ≤ e
    → is_range_in_diff ls file (some s) (some e) side ≡ all (held ls file side) (lines_between s e)
unfolding is_range_in_diff held
range-held ls file s e side h = elim (Option-cases (lookup file ls)) [
  | inl miss ↦ rw (miss, is_range_in_diff, held) (sym (all_none s e h))
  | inr (sides, hit) ↦ rw (hit, is_range_in_diff, held) (null_test (side_lines side sides) s e h)
]

-- A range that does not run backwards is in the diff exactly when each of its lines is covered, on
-- its side, by a hunk that the parser found for the file.
pub is_range_in_diff-compute_diff_line_set :
    (text file : String) (s e : ℕ) (side : Side)
    → s ≤ e
    → is_range_in_diff (compute_diff_line_set text) file (some s) (some e) side
      ≡ all (is_covered (parse_unified_diff text) file side) (lines_between s e)
is_range_in_diff-compute_diff_line_set text file s e side h =
    range-held (compute_diff_line_set text) file s e side h
    ∙ ap (λ (p : ℕ → Bool). all p (lines_between s e)) (fun_ext (held-compute text file side))
