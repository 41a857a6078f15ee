-- ===== src/Diff/Hunk.antt =====
-- What holds of every hunk that the parser returns.
use loupfeed_agents.Common.{
  ◌≤◌, String, ◌≡◌, refl, none, some, List, [], ◌∷◌, ◌++◌, null, arith, inl, inr, Option-cases,
  Bool-cases, All, All-append, ◌≢◌, subst,
}
use loupfeed_agents.Diff.Header.{Meta, file_header, hunk_header, hunk_header-ordered}
use loupfeed_agents.Diff.Lines.{splitlines}
use loupfeed_agents.Diff.Parse.{
  DiffHunk, FileDiff, Scan, start, make_hunk, flush, scan_line, add_file, parse_unified_diff,
}
use loupfeed_agents.Diff.OnePass.{
  one_pass, one_pass_line, one_pass_next, one_pass_skip, one_pass_open, parse_unified_diff-one_pass,
}

pub record IsHunkOf (path : String) (h : DiffHunk) : Type 0 where
  pub same_file : h.file ≡ path
  pub old_ordered : h.old_start ≤ h.old_end
  pub new_ordered : h.new_start ≤ h.new_end

pub record IsFileDiff (fd : FileDiff) : Type 0 where
  pub has_hunk : fd.hunks ≢ []
  pub hunks_fit : All (IsHunkOf fd.file) fd.hunks

record IsScan (path : String) (s : Scan) : Type 0 where
  fit : All (IsHunkOf path) s.hunks
  ordered : (m : Meta) → s.meta ≡ some m → (m.old_start ≤ m.old_end) × (m.new_start ≤ m.new_end)

start-IsScan : (path : String) → IsScan path start
start-IsScan path = record { fit = tt; ordered = λ m e. cc }

flush-fit : (path : String) (s : Scan) → IsScan path s → All (IsHunkOf path) (flush path s)
unfolding flush
flush-fit path s i = elim (Option-cases s.meta) [
  | inl e ↦ rw (e, flush) i.fit
  | inr (m, e) ↦
      let o : (m.old_start ≤ m.old_end) × (m.new_start ≤ m.new_end) = i.ordered m e in
      let hunk : IsHunkOf path (make_hunk path m s.lines) = record {
        same_file = refl;
        old_ordered = o.0;
        new_ordered = o.1;
      } in
      elim (Bool-cases (null s.lines)) [
        | inl n ↦ ground (arith, i.fit)
        | inr n ↦ ground (
          arith,
          All-append (IsHunkOf path) s.hunks (make_hunk path m s.lines ∷ []) i.fit (hunk, tt),
        )
      ]
]

scan_line-IsScan :
    (path : String) (s : Scan) (line : String) → IsScan path s → IsScan path (scan_line path s line)
unfolding scan_line
scan_line-IsScan path s line i = elim (Option-cases (hunk_header line)) [
  | inl e ↦ elim (Option-cases s.meta) [
    | inl none_yet ↦ subst (IsScan path) (ground arith) i
    | inr (m, open_hunk) ↦ subst (IsScan path) (ground arith) (
        let joined : IsScan path (record s { lines = s.lines ++ line ∷ [] }) = record {
          fit = i.fit;
          ordered = i.ordered;
        } in
        joined)
  ]
  | inr (m, e) ↦ subst (IsScan path) (ground arith) (
      let opened : IsScan path (record { hunks = flush path s; lines = line ∷ []; meta = some m }) =
        record {
          fit = flush-fit path s i;
          ordered = λ m' same.
              subst (λ (k : Meta). (k.old_start ≤ k.old_end) × (k.new_start ≤ k.new_end)) (cc same)
                (hunk_header-ordered line m e);
        } in
      opened)
]

add_file-IsFileDiff :
    (path : String) (hs : List DiffHunk) (fds : List FileDiff)
    → All (IsHunkOf path) hs
    → All IsFileDiff fds
    → All IsFileDiff (add_file path hs fds)
add_file-IsFileDiff path [] fds fit rest = rest
add_file-IsFileDiff path (h ∷ hs) fds fit rest =
    (record { has_hunk = λ e. cc; hunks_fit = fit }, rest)

scan-IsFileDiff :
    (path : String) (s : Scan) (lines : List String)
    → IsScan path s
    → All IsFileDiff (one_pass (some (path, s)) lines)
scan-IsFileDiff path s [] i =
    unfold one_pass in add_file-IsFileDiff path (flush path s) [] (flush-fit path s i) tt
scan-IsFileDiff path s (line ∷ lines) i = elim (Option-cases (file_header line)) [
  | inl e ↦
      rw (one_pass_line path s line lines e)
        (scan-IsFileDiff path (scan_line path s line) lines (scan_line-IsScan path s line i))
  | inr (next, e) ↦ rw (one_pass_next path s line lines next e) (
      add_file-IsFileDiff path (flush path s) _ (flush-fit path s i)
        (scan-IsFileDiff next start lines (start-IsScan next)))
]

one_pass-IsFileDiff : (lines : List String) → All IsFileDiff (one_pass none lines)
one_pass-IsFileDiff [] = unfold one_pass in tt
one_pass-IsFileDiff (line ∷ lines) = elim (Option-cases (file_header line)) [
  | inl e ↦ rw (one_pass_skip line lines e) (one_pass-IsFileDiff lines)
  | inr (path, e) ↦
      rw (one_pass_open line lines path e) (scan-IsFileDiff path start lines (start-IsScan path))
]

-- Whatever the text, each file that the parser returns has a hunk; each of its hunks names that
-- file, and on neither side does it end before it starts.
pub parse_unified_diff-IsFileDiff : (text : String) → All IsFileDiff (parse_unified_diff text)
parse_unified_diff-IsFileDiff text =
    rw parse_unified_diff-one_pass (one_pass-IsFileDiff (splitlines text))
