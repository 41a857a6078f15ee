-- ===== src/Publish/Render.antt =====
-- The bodies of comments and reviews: `render_inline_comment_body`, `render_inline_comment_payload`
-- and `render_review_body` of agent/reviewer_publish.py.
use Prim.Native.String.{[] as empty_text, ◌∷◌ as char_then}
use loupfeed_agents.Common.{
  ℕ, String, ◌&&◌, ◌||◌, not, Option, none, some, List, [], ◌∷◌, ◌++◌, code, ◌==◌, if◌then◌else◌,
  nonempty, str_eq, strip, words, join, ◌⧺◌, show_ℕ,
}
use loupfeed_agents.Json.{
  Value, str, dict, ℤ, same_num, num_of, eq_ℤ, Fields, field, end, get, has, truthy, is_null,
  text_or,
}
use loupfeed_agents.Findings.Titles.{first_line, normalize_finding_title}
use loupfeed_agents.Autofix.Prompts.{show_ℤ}

-- `d.get(k, default)`
unfoldable pub get_else : String → Value → Fields → Value
unfolding has get
get_else k default d = if has k d then get k d else default

-- the text behind the first line
unfoldable pub after_line : String → String
after_line empty_text = ""
after_line (char_then c s) = let rest = after_line s in if code c == 10 then s else rest

-- with a title that is a text with more than white space
unfoldable pub titled : String → String → String × String
unfolding strip normalize_finding_title first_line after_line
titled title description =
    let headline = normalize_finding_title (some title) "" in
    let detail = strip description in
    (
      headline,
      if nonempty detail
            && str_eq (normalize_finding_title (some (first_line description)) "") headline
          then strip (after_line description)
          else detail,
    )

unfoldable pub untitled : String → String × String
unfolding strip words normalize_finding_title first_line after_line
untitled description =
    let first = strip (first_line description) in
    let detail = strip (after_line description) in
    let headline = normalize_finding_title (some first) "" in
    if not (nonempty description)
    then (normalize_finding_title none "", "")
    else if not (nonempty detail) && not (str_eq headline (join " " (words first)))
    then (headline, description)
    else (headline, detail)

-- `_split_title_and_detail`
unfoldable pub split_title_and_detail : String → Value → String × String
unfolding titled untitled text_or strip
split_title_and_detail description title =
    if nonempty (strip (text_or title ""))
    then titled (text_or title "") description
    else untitled description

-- `_severity_emoji`
unfoldable pub severity_emoji : String → String
severity_emoji severity =
    if str_eq severity "critical"
    then "🔴"
    else if str_eq severity "high"
    then "🟠"
    else if str_eq severity "low"
    then "🔵"
    else "🟡"

-- `_format_line_reference`
unfoldable pub format_line_reference : Option ℤ → Option ℤ → String
unfolding show_ℤ eq_ℤ
format_line_reference start none = ""
format_line_reference none (some e) = "*(Refers to line " ⧺ (show_ℤ e ⧺ ")*")
format_line_reference (some s) (some e) =
    if eq_ℤ s e
    then "*(Refers to line " ⧺ (show_ℤ e ⧺ ")*")
    else "*(Refers to lines " ⧺ (show_ℤ s ⧺ ("-" ⧺ (show_ℤ e ⧺ ")*")))

-- `marker_payload`
unfoldable pub marker_payload : Fields → Fields
unfolding get get_else
marker_payload finding = field "id" (get_else "id" (str "") finding) (
    field "file_path" (get_else "file" (str "") finding) (
      field "start_line" (get "start_line" finding) (
        field "end_line" (get "end_line" finding)
          (field "side" (get_else "side" (str "RIGHT") finding) end))))

unfoldable pub comment_marker : String → String
comment_marker json = "<!-- open-swe-review-comment " ⧺ (json ⧺ " -->")

-- a line with an empty one in front, where it is not empty
paragraph : String → List String
paragraph s = if nonempty s then "" ∷ s ∷ [] else []

feedback_note : List String
feedback_note =
    "" ∷ "---"
    ∷ "*Your feedback helps loupfeed agents learn. React with 👍 or 👎 to tell us if this review comment was useful.*"
    ∷ []

-- `finding.get(k) or default`
unfoldable pub text_default : String → String → Fields → String
unfolding text_or get
text_default k default finding =
    let s = text_or (get k finding) "" in if nonempty s then s else default

unfoldable pub suggestion_block : String → String
suggestion_block s = if nonempty s then "\n\n```suggestion\n" ⧺ (s ⧺ "\n```") else ""

-- the lines behind the marker
unfoldable pub comment_lines : Fields → List String
unfolding split_title_and_detail strip text_default get severity_emoji paragraph
    format_line_reference num_of feedback_note
comment_lines finding =
    let (headline, detail) =
      split_title_and_detail (strip (text_default "description" "" finding))
        (get "title" finding) in
    (severity_emoji (text_default "severity" "medium" finding) ⧺ (" **" ⧺ (headline ⧺ "**")))
      ∷ paragraph detail
    ++ (paragraph (
          format_line_reference (num_of (get "start_line" finding))
            (num_of (get "end_line" finding)))
        ++ feedback_note)

module _ (json_dumps : Value → String) where
  -- `render_inline_comment_body`; `json.dumps` is a parameter
  unfoldable pub render_inline_comment_body : Fields → String
  unfolding comment_marker marker_payload comment_lines suggestion_block text_default
  render_inline_comment_body finding =
      join "\n"
        (comment_marker (json_dumps (dict (marker_payload finding))) ∷ "" ∷ comment_lines finding)
      ⧺ suggestion_block (text_default "suggestion" "" finding)

  -- `render_inline_comment_payload`: none for a finding without a file or an end line
  unfoldable pub render_inline_comment_payload : Fields → Option Fields
  unfolding truthy get is_null get_else render_inline_comment_body same_num
  render_inline_comment_payload finding =
      let side = get_else "side" (str "RIGHT") finding in
      let start = get "start_line" finding in
      if not (truthy (get "file" finding)) || is_null (get "end_line" finding)
      then none
      else some (
          field "path" (get "file" finding) (
            field "line" (get "end_line" finding) (
              field "side" side (
                field "body" (str (render_inline_comment_body finding)) (
                  if is_null start || same_num start (get "end_line" finding)
                  then end
                  else field "start_line" start (field "start_side" side end))))))

-- `review_summary_marker`
unfoldable pub review_summary_marker : ℤ → String
unfolding show_ℤ
review_summary_marker pr_number = "<!-- open-swe-reviewer pr=" ⧺ (show_ℤ pr_number ⧺ " -->")

-- "issue" or "issues"
unfoldable pub issue_word : ℕ → String
issue_word n = if n == 1 then "issue" else "issues"

unfoldable pub headline_of : ℕ → String
unfolding issue_word show_ℕ
headline_of n =
    if n == 0
    then "## ✅ loupfeed agents Review: No issues found\n\nloupfeed agents reviewed this PR and found no potential bugs to report."
    else "**loupfeed agents Review** found " ⧺ (show_ℕ n ⧺ (" potential " ⧺ (issue_word n ⧺ ".")))

unfoldable pub link : String → String → List String
link label url = if nonempty url then ("[" ⧺ (label ⧺ ("](" ⧺ (url ⧺ ")")))) ∷ [] else []

-- `render_review_body`, as it is called: with no findings outside the diff. A link that is not there
-- is an empty text.
unfoldable pub render_review_body : ℤ → ℕ → String → String → String
unfolding headline_of link review_summary_marker
render_review_body pr_number surfaced_count trace_url ui_url =
    let links =
      join " • " (link "Open in Web" ui_url ++ link "View loupfeed agents trace" trace_url) in
    join "\n\n" (
      headline_of surfaced_count ∷ (if nonempty links then links ∷ [] else [])
      ++ review_summary_marker pr_number ∷ [])
