-- ===== src/Findings/Create.antt =====
-- `new_finding`: the record of a finding before it is stored, with its fingerprint.
use Prim.Native.String.{[], ◌∷◌, char_at}
use loupfeed_agents.Common.{
  ℕ, ◌-◌, zero, suc, code, String, Bool, false, ◌&&◌, Option, none, some, leb, if◌then◌else◌, ◌⧺◌,
  nonempty, str_take, join, strip, words, show_ℕ,
}
use loupfeed_agents.Json.{Value, null, bool, int, pos, str, list, dict, nil, Fields, field, end}
use loupfeed_agents.Findings.Titles.{normalize_finding_title}

-- the arguments of `new_finding`; `new_id` is what `new_finding_id()` returns
pub record FindingArgs : Type 0 where
  pub new_id : String
  pub finding_id : Option String
  pub severity : String
  pub confidence : String
  pub category : String
  pub file : String
  pub start_line : Option ℕ
  pub end_line : Option ℕ
  pub description : String
  pub sha : String
  pub title : Option String
  pub side : String
  pub suggestion : Option String
  pub diff_hunk : Option String
  pub in_diff : Bool

-- `s.lower()` on ASCII letters
unfoldable pub lower : String → String
lower [] = ""
lower (c ∷ s) =
    (if leb 65 (code c) && leb (code c) 90
      then char_at "abcdefghijklmnopqrstuvwxyz" (code c - 65)
      else c)
    ∷ lower s

-- `n or ''` in a format string
unfoldable pub line_text : Option ℕ → String
unfolding show_ℕ
line_text none = ""
line_text (some zero) = ""
line_text (some (suc n)) = show_ℕ (suc n)

-- `_finding_fingerprint`
unfoldable pub finding_fingerprint : String → Option ℕ → Option ℕ → String → String
unfolding lower strip words line_text
finding_fingerprint file start_line end_line description =
    file
    ⧺ (":"
        ⧺ (line_text start_line
            ⧺ (":"
                ⧺ (line_text end_line
                    ⧺ (":" ⧺ str_take 160 (join " " (words (lower (strip description)))))))))

unfoldable pub line_value : Option ℕ → Value
line_value none = null
line_value (some n) = int (pos n)

unfoldable pub text_value : Option String → Value
text_value none = null
text_value (some s) = str s

-- `finding_id or new_finding_id()`
unfoldable pub resolved_id : FindingArgs → String
resolved_id a = elim a.finding_id [ none ↦ a.new_id | some i ↦ if nonempty i then i else a.new_id ]

new_anchor : FindingArgs → Fields
unfolding line_value
new_anchor a = field "file" (str a.file) (
    field "start_line" (line_value a.start_line)
      (field "end_line" (line_value a.end_line) (field "side" (str a.side) end)))

new_surface : FindingArgs → Fields
unfolding resolved_id
new_surface a = field "finding_id" (str (resolved_id a)) (
    field "state" (str "not_surfaced") (
      field "github_review_id" null (
        field "github_review_comment_id" null (
          field "github_review_thread_id" null (
            field "severity_threshold_at_publish" null (
              field "surfaced_at_sha" null
                (field "last_github_sync_at" null (field "last_error" null end))))))))

-- `finding["title"] = …` where a title was given
new_title : Option String → Fields
unfolding normalize_finding_title
new_title none = end
new_title (some t) = field "title" (str (normalize_finding_title (some t) "")) end

-- the fields that a new finding leaves empty
new_github : FindingArgs → Fields → Fields
new_github a rest = field "github_review_id" null (
    field "github_review_comment_id" null (
      field "github_review_comment_ids" (list nil) (
        field "github_review_thread_id" null (
          field "github_review_thread_ids" (list nil) (
            field "github_review_run_id" null (
              field "github_thread_resolved" (bool false) (
                field "github_resolved_thread_ids" (list nil) (
                  field "github_posted_resolution_comment_ids" (list nil) (
                    field "last_human_reply_at" null (
                      field "last_human_reply_author" null (
                        field "last_human_reply_body" null (
                          field "last_reconciliation_note" null
                            (field "resolution_note" null rest)))))))))))))

unfoldable pub new_finding : FindingArgs → Fields
unfolding resolved_id line_value text_value new_github new_anchor new_surface new_title
    finding_fingerprint
new_finding a = field "id" (str (resolved_id a)) (
    field "severity" (str a.severity) (
      field "confidence" (str a.confidence) (
        field "category" (str a.category) (
          field "file" (str a.file) (
            field "start_line" (line_value a.start_line) (
              field "end_line" (line_value a.end_line) (
                field "side" (str a.side) (
                  field "in_diff" (bool a.in_diff) (
                    field "description" (str a.description) (
                      field "suggestion" (text_value a.suggestion) (
                        field "status" (str "open") (
                          field "first_seen_sha" (str a.sha) (
                            field "last_confirmed_sha" (str a.sha) (
                              new_github a (
                                field "diff_hunk" (text_value a.diff_hunk) (
                                  field "fingerprint"
                                    (str (
                                      finding_fingerprint a.file a.start_line a.end_line
                                        a.description))
                                    (field "anchor" (dict (new_anchor a)) (
                                      field "surface" (dict (new_surface a)) (
                                        field "interactions" (list nil)
                                          (new_title a.title))))))))))))))))))))
