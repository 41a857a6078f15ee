-- ===== src/Groups/Prompt.antt =====
-- The hunk previews of `_build_prompt`, within their budget.
use loupfeed_agents.Common.{
  ℕ, ◌+◌, ◌-◌, ◌≤◌, String, ◌≡◌, refl, true, false, List, [], ◌∷◌, map, length, ltb, if◌then◌else◌,
  str_len, str_take, ◌⧺◌, join, arith, Bool-cases, inl, inr,
}
use loupfeed_agents.Diff.Parse.{DiffHunk, FileDiff, parse_unified_diff}

abbrev pub max_prompt_chars : ℕ
max_prompt_chars = 48000

abbrev pub max_file_hunk_chars : ℕ
max_file_hunk_chars = 4000

clip_body : String → String
clip_body body =
    if ltb max_file_hunk_chars (str_len body)
    then str_take max_file_hunk_chars body ⧺ "\n... (truncated)"
    else body

segment : DiffHunk → String
unfolding clip_body
segment h = "```diff\n" ⧺ (clip_body h.body ⧺ "\n```")

-- `block`
unfoldable pub block_of : FileDiff → String
unfolding segment
block_of fd = "### " ⧺ (fd.file ⧺ ("\n" ⧺ (join "\n" (map segment fd.hunks) ⧺ "\n")))

unfoldable pub omitted : FileDiff → String
omitted fd = "### " ⧺ (fd.file ⧺ "\n(diff omitted — prompt budget reached)\n")

-- the loop over the files; the test is `budget - len(block) < 0`
unfoldable pub parts_from : ℕ → List FileDiff → List String
unfolding block_of omitted
parts_from budget [] = []
parts_from budget (fd ∷ fds) =
    let size = str_len (block_of fd) in
    let over = ltb budget size in
    (if over then omitted fd else block_of fd)
    ∷ parts_from (if over then budget else budget - size) fds

unfoldable pub diff_parts : String → List String
unfolding parts_from parse_unified_diff
diff_parts text = parts_from max_prompt_chars (parse_unified_diff text)

abbrev pub total_len : List String → ℕ
total_len [] = 0
total_len (s ∷ ss) = str_len s + total_len ss

parts_over :
    (budget : ℕ) (fd : FileDiff) (fds : List FileDiff)
    → ltb budget (str_len (block_of fd)) ≡ true
    → parts_from budget (fd ∷ fds) ≡ omitted fd ∷ parts_from budget fds
unfolding parts_from
parts_over budget fd fds h = rw h

parts_fit :
    (budget : ℕ) (fd : FileDiff) (fds : List FileDiff)
    → ltb budget (str_len (block_of fd)) ≡ false
    → parts_from budget (fd ∷ fds) ≡ block_of fd ∷ parts_from (budget - str_len (block_of fd)) fds
unfolding parts_from
parts_fit budget fd fds h = rw h

within : (a b : ℕ) → ltb a b ≡ false → b ≤ a
within a b h = ground arith

parts_from-total :
    (budget : ℕ) (fds : List FileDiff)
    → (length (parts_from budget fds) ≡ length fds)
      × (total_len (parts_from budget fds) ≤ budget + total_len (map omitted fds))
parts_from-total budget [] = unfold parts_from in (refl, omega arith)
parts_from-total budget (fd ∷ fds) = elim (Bool-cases (ltb budget (str_len (block_of fd)))) [
  | inl over ↦
      rw (parts_over budget fd fds over)
        (let ih = parts_from-total budget fds in (omega (arith, ih.0), omega (arith, ih.1)))
  | inr fits ↦ rw (parts_fit budget fd fds fits) (
      let ih = parts_from-total (budget - str_len (block_of fd)) fds in
      (omega (arith, ih.0), omega (arith, ih.1, within _ _ fits)))
]

-- The previews have one part for each file of the diff; together they are no longer than the budget
-- and the lines that stand for the previews that were left out.
pub diff_parts-total :
    (text : String)
    → (length (diff_parts text) ≡ length (parse_unified_diff text))
      × (total_len (diff_parts text)
          ≤ max_prompt_chars + total_len (map omitted (parse_unified_diff text)))
unfolding diff_parts
diff_parts-total text = parts_from-total max_prompt_chars (parse_unified_diff text)
