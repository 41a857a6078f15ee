-- ===== src/Diff/Complete.antt =====
-- What a diff is made of, line by line, and that `parse_unified_diff` finds just that.
use loupfeed_agents.Common.{
  strip_prefix, String, Char, ◌≡◌, refl, ◌∙◌, true, none, some, List, [], ◌∷◌, ◌++◌, append_assoc,
  append-nil, map, arith, All,
}
use loupfeed_agents.Diff.Header.{Meta, file_header, hunk_header, is_body_mark}
use loupfeed_agents.Diff.Lines.{splitlines-unlines, unlines, IsLine}
use loupfeed_agents.Diff.Parse.{
  DiffHunk, FileDiff, Scan, start, make_hunk, flush, scan_line, add_file, parse_unified_diff,
}
use loupfeed_agents.Diff.OnePass.{
  one_pass, one_pass_line, one_pass_next, one_pass_open, parse_unified_diff-one_pass,
}

-- A line that opens neither a file nor a hunk.
pub record IsPlain (line : String) : Type 0 where
  pub no_file : file_header line ≡ none
  pub no_hunk : hunk_header line ≡ none

-- A hunk of a diff: its `@@` line, what that line says, and the lines below it.
pub record HunkText : Type 0 where
  pub head : String
  pub meta : Meta
  pub body : List String

pub record FileText : Type 0 where
  pub head : String
  pub path : String
  pub preamble : List String
  pub hunks : List HunkText

pub record IsHunk (h : HunkText) : Type 0 where
  pub no_file : file_header h.head ≡ none
  pub reads : hunk_header h.head ≡ some h.meta
  pub plain : All IsPlain h.body

pub record IsFile (f : FileText) : Type 0 where
  pub reads : file_header f.head ≡ some f.path
  pub plain : All IsPlain f.preamble
  pub hunks : All IsHunk f.hunks

abbrev pub hunk_lines : List HunkText → List String
hunk_lines [] = []
hunk_lines (h ∷ hs) = h.head ∷ (h.body ++ hunk_lines hs)

abbrev pub diff_lines : List FileText → List String
diff_lines [] = []
diff_lines (f ∷ fs) = f.head ∷ (f.preamble ++ (hunk_lines f.hunks ++ diff_lines fs))

abbrev pub hunk_of : String → HunkText → DiffHunk
hunk_of path h = make_hunk path h.meta (h.head ∷ h.body)

-- The files with a hunk, in order.
abbrev pub diff_of : List FileText → List FileDiff
diff_of [] = []
diff_of (f ∷ fs) = add_file f.path (map (hunk_of f.path) f.hunks) (diff_of fs)

-- A body line, told by its first character.
pub marked-IsPlain : (c : Char) (s : String) → is_body_mark c ≡ true → IsPlain (String.◌∷◌ c s)
unfolding file_header hunk_header strip_prefix
marked-IsPlain c s h = record { no_file = ground arith; no_hunk = ground arith }

-- A plain line within a hunk joins it; before the first hunk it is skipped.
scan_plain :
    (path : String) (s : Scan) (m : Meta) (line : String)
    → hunk_header line ≡ none
    → s.meta ≡ some m
    → scan_line path s line ≡ record s { lines = s.lines ++ line ∷ [] }
unfolding scan_line
scan_plain path s m line h e = ground arith

scan_preamble : (path line : String) → hunk_header line ≡ none → scan_line path start line ≡ start
unfolding scan_line
scan_preamble path line h = ground arith

one_pass-preamble :
    (path : String) (ls rest : List String)
    → All IsPlain ls
    → one_pass (some (path, start)) (ls ++ rest) ≡ one_pass (some (path, start)) rest
one_pass-preamble path [] rest h = refl
one_pass-preamble path (l ∷ ls) rest h =
    rw (one_pass_line path start l (ls ++ rest) h.0.no_file, scan_preamble path l h.0.no_hunk)
      (one_pass-preamble path ls rest h.1)

one_pass-body :
    (path : String) (hs : List DiffHunk) (ls : List String) (m : Meta) (body rest : List String)
    → All IsPlain body
    → one_pass (some (path, record { hunks = hs; lines = ls; meta = some m })) (body ++ rest)
      ≡ one_pass (some (path, record { hunks = hs; lines = ls ++ body; meta = some m })) rest
one_pass-body path hs ls m [] rest h = rw append-nil
one_pass-body path hs ls m (l ∷ body) rest h = rw (
  one_pass_line path _ l (body ++ rest) h.0.no_file,
  scan_plain path (record { hunks = hs; lines = ls; meta = some m }) m l h.0.no_hunk refl,
  one_pass-body path hs (ls ++ l ∷ []) m body rest h.1,
  append_assoc,
)

-- The scan behind a list of hunks.
after : String → Scan → List HunkText → Scan
after path s [] = s
after path s (h ∷ hs) =
    after path (record { hunks = flush path s; lines = h.head ∷ h.body; meta = some h.meta }) hs

flush-after :
    (path : String) (s : Scan) (hs : List HunkText)
    → flush path (after path s hs) ≡ flush path s ++ map (hunk_of path) hs
unfolding after flush
flush-after path s [] = rw append-nil
flush-after path s (h ∷ hs) = flush-after path _ hs ∙ append_assoc (flush path s) _ _

scan_hunk :
    (path : String) (s : Scan) (line : String) (m : Meta)
    → hunk_header line ≡ some m
    → scan_line path s line ≡ record { hunks = flush path s; lines = line ∷ []; meta = some m }
unfolding scan_line
scan_hunk path s line m h = rw (h, scan_line)

one_pass-hunks :
    (path : String) (s : Scan) (hs : List HunkText) (rest : List String)
    → All IsHunk hs
    → one_pass (some (path, s)) (hunk_lines hs ++ rest)
      ≡ one_pass (some (path, after path s hs)) rest
unfolding after
one_pass-hunks path s [] rest h = refl
one_pass-hunks path s (x ∷ hs) rest h =
    rw
      (
        one_pass_line path s x.head _ h.0.no_file,
        scan_hunk path s x.head x.meta h.0.reads,
        append_assoc,
        one_pass-body path (flush path s) (x.head ∷ []) x.meta x.body (hunk_lines hs ++ rest)
            h.0.plain,
      )
      (one_pass-hunks path
        (record { hunks = flush path s; lines = x.head ∷ x.body; meta = some x.meta }) hs rest h.1)

flush-start : (path : String) → flush path start ≡ []
unfolding flush
flush-start path = refl

-- The lines of one file, read from its start, and the rest from there.
one_pass-open_file :
    (f : FileText) (rest : List String)
    → IsFile f
    → one_pass (some (f.path, start)) (f.preamble ++ (hunk_lines f.hunks ++ rest))
      ≡ one_pass (some (f.path, after f.path start f.hunks)) rest
one_pass-open_file f rest h =
    one_pass-preamble f.path f.preamble _ h.plain ∙ one_pass-hunks f.path start f.hunks rest h.hunks

hunks-after :
    (path : String) (hs : List HunkText) → flush path (after path start hs) ≡ map (hunk_of path) hs
hunks-after path hs = rw (flush-after, flush-start)

one_pass-files :
    (path : String) (s : Scan) (fs : List FileText)
    → All IsFile fs
    → one_pass (some (path, s)) (diff_lines fs) ≡ add_file path (flush path s) (diff_of fs)
one_pass-files path s [] h = unfold one_pass in refl
one_pass-files path s (f ∷ fs) h = rw (
  one_pass_next path s f.head _ f.path h.0.reads,
  one_pass-open_file f (diff_lines fs) h.0,
  one_pass-files f.path (after f.path start f.hunks) fs h.1,
  hunks-after,
)

one_pass-diff : (fs : List FileText) → All IsFile fs → one_pass none (diff_lines fs) ≡ diff_of fs
one_pass-diff [] h = unfold one_pass in refl
one_pass-diff (f ∷ fs) h = rw (
  one_pass_open f.head _ f.path h.0.reads,
  one_pass-open_file f (diff_lines fs) h.0,
  one_pass-files f.path (after f.path start f.hunks) fs h.1,
  hunks-after,
)

-- From the text of a diff whose lines hold no line break and are grouped into files and hunks as
-- `diff_lines` lists them, the parser returns exactly those files that have a hunk, each with all
-- its hunks in order, with the numbers that the `@@` lines say and the lines of the hunk as its body.
pub parse_unified_diff-diff_lines :
    (fs : List FileText)
    → All IsFile fs
    → All IsLine (diff_lines fs)
    → parse_unified_diff (unlines (diff_lines fs)) ≡ diff_of fs
parse_unified_diff-diff_lines fs h l =
    rw (parse_unified_diff-one_pass, splitlines-unlines (diff_lines fs) l) (one_pass-diff fs h)
