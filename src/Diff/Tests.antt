-- ===== src/Diff/Tests.antt =====
-- The parser and the anchor tests on a small diff, and the theorems at it.
use loupfeed_agents.Common.{
  String, ◌≡◌, refl, true, false, none, some, List, [], ◌∷◌, All, arith, all,
}
use loupfeed_agents.Diff.Lines.{splitlines, unlines, IsLine, is_break}
use loupfeed_agents.Diff.Header.{file_header, hunk_header}
use loupfeed_agents.Diff.Parse.{parse_unified_diff}
use loupfeed_agents.Diff.OnePass.{one_pass, parse_unified_diff-one_pass}
use loupfeed_agents.Diff.Complete.{
  FileText, HunkText, IsPlain, IsHunk, IsFile, diff_lines, diff_of, parse_unified_diff-diff_lines,
  marked-IsPlain,
}
use loupfeed_agents.Diff.Anchor.{
  Side, compute_diff_line_set, is_range_in_diff, extract_diff_hunk, find_file, lines_between,
}
use loupfeed_agents.Diff.Cover.{is_covered, is_range_in_diff-compute_diff_line_set}
use loupfeed_agents.Diff.Extract.{Distinct, Extracted, extract_diff_hunk-Extracted}

abbrev change : HunkText
change = record {
  head = "@@ -1,2 +10,3 @@ def f():";
  meta = record { old_start = 1; old_end = 2; new_start = 10; new_end = 12 };
  body = " x = 1" ∷ "+y = 2" ∷ " return x" ∷ [];
}

abbrev removal : HunkText
removal = record {
  head = "@@ -40 +50,0 @@";
  meta = record { old_start = 40; old_end = 40; new_start = 50; new_end = 50 };
  body = "-z = 3" ∷ [];
}

abbrev edited : FileText
edited = record {
  head = "diff --git a/app.py b/app.py";
  path = "app.py";
  preamble = "index 1..2 100644" ∷ "--- a/app.py" ∷ "+++ b/app.py" ∷ [];
  hunks = change ∷ removal ∷ [];
}

abbrev renamed : FileText
renamed = record {
  head = "diff --git a/old.txt b/new.txt";
  path = "new.txt";
  preamble = "similarity index 100%" ∷ [];
  hunks = [];
}

abbrev sample : List FileText
sample = renamed ∷ edited ∷ []

abbrev text : String
text = unlines (diff_lines sample)

file_header-path : file_header "diff --git a/a b/c d.py b/x" ≡ some "c d.py b/x"
unfolding file_header
file_header-path = refl

hunk_header-malformed : hunk_header "@@ -1, +2 @@" ≡ none
unfolding hunk_header
hunk_header-malformed = refl

parse-sample : parse_unified_diff text ≡ diff_of sample
unfolding parse_unified_diff file_header hunk_header
parse-sample = refl

index_line-IsPlain : IsPlain "index 1..2 100644"
unfolding file_header hunk_header
index_line-IsPlain = record { no_file = refl; no_hunk = refl }

change-IsHunk : IsHunk change
unfolding file_header hunk_header
change-IsHunk = record {
  no_file = refl;
  reads = refl;
  plain = (
    marked-IsPlain " " "x = 1" refl,
    (marked-IsPlain "+" "y = 2" refl, (marked-IsPlain " " "return x" refl, tt)),
  );
}

removal-IsHunk : IsHunk removal
unfolding file_header hunk_header
removal-IsHunk = record {
  no_file = refl;
  reads = refl;
  plain = (marked-IsPlain "-" "z = 3" refl, tt);
}

edited-IsFile : IsFile edited
unfolding file_header hunk_header
edited-IsFile = record {
  reads = refl;
  plain = (
    index_line-IsPlain,
    (marked-IsPlain "-" "-- a/app.py" refl, (marked-IsPlain "+" "++ b/app.py" refl, tt)),
  );
  hunks = (change-IsHunk, (removal-IsHunk, tt));
}

renamed-IsFile : IsFile renamed
unfolding file_header hunk_header
renamed-IsFile = record {
  reads = refl;
  plain = (record { no_file = refl; no_hunk = refl }, tt);
  hunks = tt;
}

sample-IsFile : All IsFile sample
sample-IsFile = (renamed-IsFile, (edited-IsFile, tt))

sample-IsLine : All IsLine (diff_lines sample)
unfolding is_break
sample-IsLine = ground arith

parse_unified_diff-diff_lines_example : parse_unified_diff text ≡ diff_of sample
parse_unified_diff-diff_lines_example =
    parse_unified_diff-diff_lines sample sample-IsFile sample-IsLine

parse_unified_diff-one_pass_example : parse_unified_diff text ≡ one_pass none (splitlines text)
parse_unified_diff-one_pass_example = parse_unified_diff-one_pass text

is_range_in_diff-compute_diff_line_set_example :
    is_range_in_diff (compute_diff_line_set text) "app.py" (some 11) (some 12) Side.right
    ≡ all (is_covered (parse_unified_diff text) "app.py" Side.right) (lines_between 11 12)
is_range_in_diff-compute_diff_line_set_example =
    is_range_in_diff-compute_diff_line_set text "app.py" 11 12 Side.right (omega arith)

in_range :
    is_range_in_diff (compute_diff_line_set text) "app.py" (some 11) (some 12) Side.right ≡ true
unfolding is_range_in_diff compute_diff_line_set parse_unified_diff file_header hunk_header
in_range = refl

out_of_range :
    is_range_in_diff (compute_diff_line_set text) "app.py" (some 12) (some 13) Side.right ≡ false
unfolding is_range_in_diff compute_diff_line_set parse_unified_diff file_header hunk_header
out_of_range = refl

sample-Distinct : Distinct (parse_unified_diff text)
sample-Distinct = rw parse-sample (refl, tt)

extract_diff_hunk-Extracted_example :
    Extracted 40 40
      (find_file "app.py" (parse_unified_diff text))
      (extract_diff_hunk text "app.py" (some 40) (some 40))
extract_diff_hunk-Extracted_example = extract_diff_hunk-Extracted text "app.py" 40 40

-- A removed line is in the diff on the old side, and gets no hunk: the search reads new-side numbers.
removed_line_in_diff :
    is_range_in_diff (compute_diff_line_set text) "app.py" (some 40) (some 40) Side.left ≡ true
unfolding is_range_in_diff compute_diff_line_set parse_unified_diff file_header hunk_header
removed_line_in_diff = refl

removed_line_no_hunk : extract_diff_hunk text "app.py" (some 40) (some 40) ≡ none
unfolding extract_diff_hunk parse_unified_diff file_header hunk_header
removed_line_no_hunk = refl
