-- ===== src/Publish/Tests.antt =====
-- A finding that is rendered, posted and recorded.
use loupfeed_agents.Common.{
  ℕ, String, ◌≡◌, refl, Bool, true, Option, none, some, List, [], ◌∷◌, all, ◌⧺◌, join, str_eq,
  if◌then◌else◌,
}
use loupfeed_agents.Json.{
  Value, null, str, int, pos, dict, has_text, in_texts, Fields, field, end, items_of, update,
}
use loupfeed_agents.Findings.Client.{Threads, list_client}
use loupfeed_agents.Findings.Threads.{list_client-IsMerging}
use loupfeed_agents.Findings.Coerce.{findings_value}
use loupfeed_agents.Findings.Mutate.{ok, list_findings}
use loupfeed_agents.Findings.Stored.{findings_of, Frame}
use loupfeed_agents.Autofix.Prompts.{show_ℤ}
use loupfeed_agents.Reconcile.Marker.{parse_review_comment_marker}
use loupfeed_agents.Publish.Render.{marker_payload, render_inline_comment_body, render_review_body}
use loupfeed_agents.Publish.Marked.{own_marker, parse-render_inline_comment_body}
use loupfeed_agents.Publish.Select.{selected}
use loupfeed_agents.Publish.Stamp.{
  Comments, finding_ids, comment_id_by_finding_id, record_review_publication,
}
use loupfeed_agents.Publish.Stamped.{published}
use loupfeed_agents.Publish.Once.{lacks_comment}
use loupfeed_agents.Publish.Published.{EachPublished}
use loupfeed_agents.Publish.Sourced.{Sourced}
use loupfeed_agents.Publish.Recorded.{record_review_publication-Frame}

-- JSON of an object of texts, numbers and nulls that need no escapes
abbrev json_scalar : Value → String
json_scalar null = "null"
json_scalar (str s) = "\"" ⧺ (s ⧺ "\"")
json_scalar (int z) = show_ℤ z
json_scalar v = "?"

abbrev json_fields : Fields → List String
json_fields end = []
json_fields (field k v f) = ("\"" ⧺ (k ⧺ ("\": " ⧺ json_scalar v))) ∷ json_fields f

abbrev json_dumps : Value → String
json_dumps (dict f) = "{" ⧺ (join ", " (json_fields f) ⧺ "}")
json_dumps v = json_scalar v

abbrev finding : Fields
finding = field "id" (str "f_1") (
    field "severity" (str "high") (
      field "file" (str "a.py") (
        field "start_line" (int (pos 3)) (
          field "end_line" (int (pos 4)) (
            field "title" (str "Off by one") (
              field "description" (str "The loop stops early. -->")
                (field "status" (str "open") end)))))))

abbrev payload_text : String
payload_text = join ", " (json_fields (marker_payload finding))

-- reads back the one text that is printed
abbrev json_loads : String → Option Value
json_loads s =
    if str_eq s (json_dumps (dict (marker_payload finding)))
    then some (dict (marker_payload finding))
    else none

abbrev body : String
body = render_inline_comment_body json_dumps finding

body_is :
    body
    ≡ "<!-- open-swe-review-comment {\"id\": \"f_1\", \"file_path\": \"a.py\", \"start_line\": 3, \"end_line\": 4, \"side\": \"RIGHT\"} -->\n\n🟠 **Off by one**\n\nThe loop stops early. -->\n\n*(Refers to lines 3-4)*\n\n---\n*Your feedback helps loupfeed agents learn. React with 👍 or 👎 to tell us if this review comment was useful.*"
unfolding render_inline_comment_body marker_payload
body_is = refl

review_body_is :
    render_review_body (pos 7) 1 "" "https://x/review"
    ≡ "**loupfeed agents Review** found 1 potential issue.\n\n[Open in Web](https://x/review)\n\n<!-- open-swe-reviewer pr=7 -->"
unfolding render_review_body
review_body_is = refl

parse-render_inline_comment_body_example :
    parse_review_comment_marker json_loads (render_inline_comment_body json_dumps finding)
    ≡ some (own_marker finding)
unfolding marker_payload show_ℤ has_text in_texts
parse-render_inline_comment_body_example =
    parse-render_inline_comment_body json_loads json_dumps finding payload_text refl refl refl refl
      refl refl

abbrev the_thread : Value
the_thread =
    dict (field "metadata" (dict (field "findings" (findings_value (finding ∷ [])) end)) end)

abbrev the_store : Threads
the_store = ("t", field "findings" (findings_value (finding ∷ [])) end) ∷ []

abbrev records : List Fields
records = field "id" (int (pos 11)) (field "body" (str body) end) ∷ []

abbrev comments : Comments
comments = ("f_1", pos 11) ∷ []

comments_are : comment_id_by_finding_id json_loads (finding ∷ []) records ≡ comments
unfolding comment_id_by_finding_id marker_payload render_inline_comment_body
comments_are = refl

abbrev recorded : Fields
recorded = published ("f_1" ∷ []) (pos 5) comments "run" finding

abbrev recorded_store : Threads
recorded_store = ("t", field "findings" (findings_value (recorded ∷ [])) end) ∷ []

recorded_one :
    record_review_publication list_client "t" json_loads
      (pos 5)
      (finding ∷ [])
      records
      "run"
      the_store
    ≡ (ok tt, recorded_store)
unfolding record_review_publication items_of update comment_id_by_finding_id marker_payload
    render_inline_comment_body
recorded_one = refl

record_review_publication-Frame_example :
    (fs : List Fields) × EachPublished
      (finding_ids (finding ∷ []))
      (pos 5)
      (comment_id_by_finding_id json_loads (finding ∷ []) records)
      "run"
      (findings_of the_thread)
      fs
    × Sourced json_loads records (comment_id_by_finding_id json_loads (finding ∷ []) records)
    × (list_findings list_client "t" recorded_store ≡ (ok fs, recorded_store))
    × Frame list_client "t" the_thread the_store recorded_store
    × ((is_re_review : Bool) (head threshold : String) (cap : ℕ)
        → all
            (lacks_comment (comment_id_by_finding_id json_loads (finding ∷ []) records))
            (selected is_re_review head threshold cap fs)
          ≡ true)
record_review_publication-Frame_example =
    record_review_publication-Frame list_client list_client-IsMerging "t" the_store the_thread
      json_loads (pos 5) (finding ∷ []) records "run" recorded_store refl recorded_one
