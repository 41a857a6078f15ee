-- ===== src/Diff/Parse.antt =====
-- `parse_unified_diff` of agent/reviewer_diff.py.
use loupfeed_agents.Common.{
  ℕ, zero, suc, String, Option, none, some, List, [], ◌∷◌, ◌++◌, length, null, join, if◌then◌else◌,
  is_some,
}
use loupfeed_agents.Diff.Lines.{splitlines}
use loupfeed_agents.Diff.Header.{Meta, file_header, hunk_header}

pub record DiffHunk : Type 0 where
  pub file : String
  pub new_start : ℕ
  pub new_end : ℕ
  pub old_start : ℕ
  pub old_end : ℕ
  pub body : String

pub record FileDiff : Type 0 where
  pub file : String
  pub hunks : List DiffHunk

-- the variables of the inner loop: `hunks`, `current_hunk_lines`, `current_meta`
pub record Scan : Type 0 where
  pub hunks : List DiffHunk
  pub lines : List String
  pub meta : Option Meta

abbrev pub start : Scan
start = record { hunks = []; lines = []; meta = none }

abbrev pub make_hunk : String → Meta → List String → DiffHunk
make_hunk path m lines = record {
  file = path;
  new_start = m.new_start;
  new_end = m.new_end;
  old_start = m.old_start;
  old_end = m.old_end;
  body = join "\n" lines;
}

-- `if current_meta is not None and current_hunk_lines: hunks.append(…)`
unfoldable pub flush : String → Scan → List DiffHunk
flush path s = elim s.meta [
  | none ↦ s.hunks
  | some m ↦ if null s.lines then s.hunks else s.hunks ++ make_hunk path m s.lines ∷ []
]

-- the body of the inner loop
unfoldable pub scan_line : String → Scan → String → Scan
unfolding flush
scan_line path s line = elim (hunk_header line) [
  | some m ↦ record { hunks = flush path s; lines = line ∷ []; meta = some m }
  | none ↦ elim s.meta [ none ↦ s | some m ↦ record s { lines = s.lines ++ line ∷ [] } ]
]

-- the inner loop, from the line behind a file header to the next one, with the lines that are left
unfoldable pub scan_file : String → Scan → List String → List DiffHunk × List String
unfolding scan_line
scan_file path s [] = (flush path s, [])
scan_file path s (line ∷ lines) =
    let rest = scan_file path (scan_line path s line) lines in
    if is_some (file_header line) then (flush path s, line ∷ lines) else rest

-- `if hunks: files.append(FileDiff(…))`
abbrev pub add_file : String → List DiffHunk → List FileDiff → List FileDiff
add_file path hunks files =
    if null hunks then files else record { file = path; hunks = hunks } ∷ files

-- the outer loop, on fuel
unfoldable pub parse_lines : ℕ → List String → List FileDiff
unfolding scan_file
parse_lines zero lines = []
parse_lines (suc fuel) [] = []
parse_lines (suc fuel) (line ∷ lines) = elim (file_header line) [
  | none ↦ parse_lines fuel lines
  | some path ↦
      let (hunks, rest) = scan_file path start lines in add_file path hunks (parse_lines fuel rest)
]

-- Each turn consumes a line, so the number of lines is enough fuel.
unfoldable pub parse_unified_diff : String → List FileDiff
unfolding parse_lines splitlines
parse_unified_diff text = let lines = splitlines text in parse_lines (length lines) lines
