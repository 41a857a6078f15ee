-- ===== src/Diff/Extract.antt =====
-- Which hunk `extract_diff_hunk` stores with a finding.
use loupfeed_agents.Common.{
  ℕ, ◌+◌, ◌-◌, ◌≤◌, String, ◌≡◌, refl, sym, ap, ◌∙◌, Bool, true, false, Option, none, some, List,
  [], ◌∷◌, ◌++◌, any, all, str_eq, eq_iff, arith, inl, inr, Bool-cases, Option-cases, suc,
}
use mathlib.Core.Path.{subst₂}
use loupfeed_agents.Diff.Parse.{DiffHunk, FileDiff, parse_unified_diff}
use loupfeed_agents.Diff.Anchor.{
  Side, range_from, lines_between, overlaps, find_overlap, find_file, hunk_in, extract_diff_hunk,
  compute_diff_line_set, is_range_in_diff,
}
use loupfeed_agents.Diff.Cover.{covers, is_covered, is_range_in_diff-compute_diff_line_set}

-- The first hunk of the list that overlaps a range of new-side lines.
pub record FirstOverlap (s e : ℕ) (hunks : List DiffHunk) (body : String) : Type 0 where
  pub before : List DiffHunk
  pub hunk : DiffHunk
  pub behind : List DiffHunk
  pub split : hunks ≡ before ++ hunk ∷ behind
  pub body_of : hunk.body ≡ body
  pub meets : overlaps s e hunk ≡ true
  pub first : any (overlaps s e) before ≡ false

find_overlap-FirstOverlap :
    (s e : ℕ) (hs : List DiffHunk) (body : String)
    → find_overlap s e hs ≡ some body
    → FirstOverlap s e hs body
unfolding find_overlap
find_overlap-FirstOverlap s e [] body h = cc
find_overlap-FirstOverlap s e (x ∷ hs) body h = elim (Bool-cases (overlaps s e x)) [
  | inl hit ↦ record {
    before = [];
    hunk = x;
    behind = hs;
    split = refl;
    body_of = ground arith;
    meets = hit;
    first = refl;
  }
  | inr miss ↦
      let r : FirstOverlap s e hs body = find_overlap-FirstOverlap s e hs body (ground arith) in
      record {
        before = x ∷ r.before;
        hunk = r.hunk;
        behind = r.behind;
        split = ap (λ (l : List DiffHunk). x ∷ l) r.split;
        body_of = r.body_of;
        meets = r.meets;
        first = ground (arith, r.first);
      }
]

find_overlap-none :
    (s e : ℕ) (hs : List DiffHunk) → find_overlap s e hs ≡ none → any (overlaps s e) hs ≡ false
unfolding find_overlap
find_overlap-none s e [] h = refl
find_overlap-none s e (x ∷ hs) h = ground (arith, find_overlap-none s e hs)

hunk_in-range : (hs : List DiffHunk) (s e : ℕ) → hunk_in hs (some s) (some e) ≡ find_overlap s e hs
unfolding hunk_in find_overlap
hunk_in-range [] s e = refl
hunk_in-range (h ∷ hs) s e = refl

-- What the call returns, told from the first entry for the file.
abbrev pub Extracted : ℕ → ℕ → Option FileDiff → Option String → Type 0
Extracted s e none r = r ≡ none
Extracted s e (some fd) none = any (overlaps s e) fd.hunks ≡ false
Extracted s e (some fd) (some body) = FirstOverlap s e fd.hunks body

hunk_in-Extracted :
    (s e : ℕ) (fd : FileDiff) (r : Option String)
    → find_overlap s e fd.hunks ≡ r
    → Extracted s e (some fd) r
hunk_in-Extracted s e fd none h = find_overlap-none s e fd.hunks h
hunk_in-Extracted s e fd (some body) h = find_overlap-FirstOverlap s e fd.hunks body h

-- For a range of lines the call returns the body of the first hunk, in the first entry for the
-- file, that overlaps the range by its new-side numbers; it returns nothing exactly when there is
-- no entry or no such hunk.
pub extract_diff_hunk-Extracted :
    (text file : String) (s e : ℕ)
    → Extracted s e
        (find_file file (parse_unified_diff text))
        (extract_diff_hunk text file (some s) (some e))
unfolding extract_diff_hunk
extract_diff_hunk-Extracted text file s e =
    elim (Option-cases (find_file file (parse_unified_diff text))) [
      | inl miss ↦ rw (miss, extract_diff_hunk) refl
      | inr (fd, hit) ↦ rw (hit, extract_diff_hunk, hunk_in-range) (hunk_in-Extracted s e fd _ refl)
    ]

-- No file has two entries.
abbrev pub Distinct : List FileDiff → Type 0
Distinct [] = Unit
Distinct (fd ∷ fds) = (any (λ other. str_eq other.file fd.file) fds ≡ false) × Distinct fds

covers-overlaps :
    (s e : ℕ) (hs : List DiffHunk)
    → s ≤ e
    → any (covers Side.right s) hs ≡ true
    → any (overlaps s e) hs ≡ true
unfolding covers overlaps
covers-overlaps s e [] le h = cc
covers-overlaps s e (x ∷ hs) le h = ground (arith, covers-overlaps s e hs le)

absent-covered :
    (fds : List FileDiff) (file : String) (n : ℕ)
    → any (λ (other : FileDiff). str_eq other.file file) fds ≡ false
    → is_covered fds file Side.right n ≡ false
unfolding is_covered
absent-covered [] file n h = refl
absent-covered (fd ∷ fds) file n h = ground (arith, absent-covered fds file n)

-- A covered line is covered by the entry that is found.
found-covers :
    (fds : List FileDiff) (file : String) (n : ℕ)
    → Distinct fds
    → is_covered fds file Side.right n ≡ true
    → (fd : FileDiff) × (find_file file fds ≡ some fd) × (any (covers Side.right n) fd.hunks ≡ true)
unfolding is_covered find_file
found-covers [] file n d h = cc
found-covers (fd ∷ fds) file n d h = elim (Bool-cases (str_eq fd.file file)) [
  | inl same ↦ (
    fd,
    ground arith,
    let e : fd.file ≡ file = (eq_iff fd.file file).0 same in
        ground (arith, absent-covered fds file n (rw (← e) d.0)),
  )
  | inr other ↦
      let r = found-covers fds file n d.1 (ground arith) in (r.0, ground (arith, r.1), r.2)
]

first_line : (p : ℕ → Bool) (s e : ℕ) → s ≤ e → all p (lines_between s e) ≡ true → p s ≡ true
first_line p s e le h =
    let size : e + 1 - s ≡ suc (e - s) = omega arith in
    let h' : all p (range_from s (suc (e - s))) ≡ true = rw size at h in ground arith

-- A finding that passed the anchor test on the new side, at a range that does not run backwards, is
-- stored with a hunk, if the diff has one entry for each file.
pub extract_diff_hunk-is_range_in_diff :
    (text file : String) (s e : ℕ)
    → s ≤ e
    → Distinct (parse_unified_diff text)
    → is_range_in_diff (compute_diff_line_set text) file (some s) (some e) Side.right ≡ true
    → (body : String) × (extract_diff_hunk text file (some s) (some e) ≡ some body)
extract_diff_hunk-is_range_in_diff text file s e le d h =
    stored (extract_diff_hunk text file (some s) (some e)) refl
  where
    covered : is_covered (parse_unified_diff text) file Side.right s ≡ true
    covered =
        first_line (is_covered (parse_unified_diff text) file Side.right) s e le
          (sym (is_range_in_diff-compute_diff_line_set text file s e Side.right le) ∙ h)

    entry :
        (fd : FileDiff) × (find_file file (parse_unified_diff text) ≡ some fd)
        × (any (covers Side.right s) fd.hunks ≡ true)
    entry = found-covers (parse_unified_diff text) file s d covered

    stored :
        (r : Option String)
        → extract_diff_hunk text file (some s) (some e) ≡ r
        → (body : String) × (r ≡ some body)
    stored none missed =
        let claim : Extracted s e (some entry.0) none =
          subst₂ (Extracted s e) entry.1 missed (extract_diff_hunk-Extracted text file s e) in
        absurd (cc (claim, covers-overlaps s e entry.0.hunks le entry.2))
    stored (some body) found = (body, refl)
