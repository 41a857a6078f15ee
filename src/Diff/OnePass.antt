-- ===== src/Diff/OnePass.antt =====
-- The two nested loops of `parse_unified_diff` against one pass over the lines.
use loupfeed_agents.Common.{
  ℕ, zero, suc, ◌≤◌, String, ◌≡◌, refl, Option, none, some, List, [], ◌∷◌, length, arith,
  Option-cases, inl, inr, ap, ◌∙◌,
}
use loupfeed_agents.Diff.Header.{file_header}
use loupfeed_agents.Diff.Lines.{splitlines}
use loupfeed_agents.Diff.Parse.{
  FileDiff, Scan, start, flush, scan_line, scan_file, add_file, parse_lines, parse_unified_diff,
}

-- The open file and its scan, if any, with the lines that are left.
unfoldable pub one_pass : Option (String × Scan) → List String → List FileDiff
one_pass none [] = []
one_pass none (line ∷ lines) = elim (file_header line) [
  | none ↦ one_pass none lines
  | some path ↦ one_pass (some (path, start)) lines
]
one_pass (some (path, s)) [] = add_file path (flush path s) []
one_pass (some (path, s)) (line ∷ lines) = elim (file_header line) [
  | none ↦ one_pass (some (path, scan_line path s line)) lines
  | some next ↦ add_file path (flush path s) (one_pass (some (next, start)) lines)
]

-- The steps, as equations.
module _ (path : String) (s : Scan) (line : String) (lines : List String) where
  pub one_pass_line :
      file_header line ≡ none
      → one_pass (some (path, s)) (line ∷ lines)
        ≡ one_pass (some (path, scan_line path s line)) lines
  unfolding one_pass
  one_pass_line e = ground arith

  pub one_pass_next :
      (next : String)
      → file_header line ≡ some next
      → one_pass (some (path, s)) (line ∷ lines)
        ≡ add_file path (flush path s) (one_pass (some (next, start)) lines)
  unfolding one_pass
  one_pass_next next e = ground arith

  scan_file_line :
      file_header line ≡ none
      → scan_file path s (line ∷ lines) ≡ scan_file path (scan_line path s line) lines
  unfolding scan_file
  scan_file_line e = ground arith

  scan_file_next :
      (next : String)
      → file_header line ≡ some next
      → scan_file path s (line ∷ lines) ≡ (flush path s, line ∷ lines)
  unfolding scan_file
  scan_file_next next e = ground arith

pub one_pass_skip :
    (line : String) (lines : List String)
    → file_header line ≡ none
    → one_pass none (line ∷ lines) ≡ one_pass none lines
unfolding one_pass
one_pass_skip line lines e = ground arith

pub one_pass_open :
    (line : String) (lines : List String) (path : String)
    → file_header line ≡ some path
    → one_pass none (line ∷ lines) ≡ one_pass (some (path, start)) lines
unfolding one_pass
one_pass_open line lines path e = ground arith

parse_lines_skip :
    (fuel : ℕ) (line : String) (lines : List String)
    → file_header line ≡ none
    → parse_lines (suc fuel) (line ∷ lines) ≡ parse_lines fuel lines
unfolding parse_lines
parse_lines_skip fuel line lines e = ground arith

parse_lines_open :
    (fuel : ℕ) (line : String) (lines : List String) (path : String)
    → file_header line ≡ some path
    → parse_lines (suc fuel) (line ∷ lines)
      ≡ add_file path
          (scan_file path start lines).0
          (parse_lines fuel (scan_file path start lines).1)
unfolding parse_lines
parse_lines_open fuel line lines path e = rw (e, parse_lines)

parse_lines-nil : (fuel : ℕ) → parse_lines fuel [] ≡ []
unfolding parse_lines
parse_lines-nil zero = refl
parse_lines-nil (suc fuel) = refl

scan_file-one_pass :
    (path : String) (s : Scan) (lines : List String) (fuel : ℕ)
    → length lines ≤ fuel
    → add_file path (scan_file path s lines).0 (parse_lines fuel (scan_file path s lines).1)
      ≡ one_pass (some (path, s)) lines
scan_file-one_pass path s [] fuel h = unfold scan_file one_pass in rw parse_lines-nil
scan_file-one_pass path s (line ∷ lines) zero h = absurd (omega arith)
scan_file-one_pass path s (line ∷ lines) (suc fuel) h = elim (Option-cases (file_header line)) [
  | inl e ↦
      rw (scan_file_line path s line lines e, one_pass_line path s line lines e)
        (scan_file-one_pass path (scan_line path s line) lines (suc fuel) (omega arith))
  | inr (next, e) ↦
      rw (scan_file_next path s line lines next e, one_pass_next path s line lines next e)
        (ap (add_file path (flush path s)) (
          parse_lines_open fuel line lines next e
          ∙ scan_file-one_pass next start lines fuel (omega arith)))
]

pub parse_lines-one_pass :
    (fuel : ℕ) (lines : List String)
    → length lines ≤ fuel
    → parse_lines fuel lines ≡ one_pass none lines
parse_lines-one_pass fuel [] h = unfold one_pass in parse_lines-nil fuel
parse_lines-one_pass zero (line ∷ lines) h = absurd (omega arith)
parse_lines-one_pass (suc fuel) (line ∷ lines) h = elim (Option-cases (file_header line)) [
  | inl e ↦
      rw (parse_lines_skip fuel line lines e, one_pass_skip line lines e)
        (parse_lines-one_pass fuel lines (omega arith))
  | inr (path, e) ↦
      rw (parse_lines_open fuel line lines path e, one_pass_open line lines path e)
        (scan_file-one_pass path start lines fuel (omega arith))
]

-- The fuel that the model of the loops takes is enough: the result is that of one pass.
pub parse_unified_diff-one_pass :
    (text : String) → parse_unified_diff text ≡ one_pass none (splitlines text)
unfolding parse_unified_diff
parse_unified_diff-one_pass text = parse_lines-one_pass _ (splitlines text) (omega arith)
