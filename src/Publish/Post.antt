-- ===== src/Publish/Post.antt =====
-- `post_pull_request_review` of agent/reviewer_publish.py: the payload of a review, and what is made of
-- the answer.
use loupfeed_agents.Common.{
  ℕ, String, Bool, ◌||◌, Option, none, some, List, [], any, if◌then◌else◌, ◌==◌, is_infix, ◌⧺◌, map,
  show_ℕ, str_take,
}
use loupfeed_agents.Json.{
  Value, null, int, pos, str, list, dict, Fields, field, end, get, as_dict, as_list, as_str,
  items_of,
}

-- The answer to the request, with the body as a text and read as JSON: a status of success, any
-- other, or no answer, with the error of the client.
pub data Reply : Type 0 where
  answered : ℕ → String → Value → Reply
  status_error : ℕ → String → Option Value → Reply
  unreachable : String → Reply

-- the payload
unfoldable pub review_payload : String → String → List Fields → Fields
review_payload head body comments = field "commit_id" (str head) (
    field "event" (str "COMMENT") (
      field "body" (str body)
        (field "comments" (list (items_of (map (λ c. dict c) comments))) end)))

-- `candidate if isinstance(candidate, list)`
raw_errors : Option Value → List Value
unfolding as_dict as_list get
raw_errors none = []
raw_errors (some v) = elim (as_dict v) [
  | none ↦ []
  | some d ↦ elim (as_list (get "errors" d)) [ none ↦ [] | some l ↦ l ]
]

names_anchor : Value → Bool
unfolding as_str is_infix
names_anchor v = elim (as_str v) [
  | none ↦ Bool.false
  | some s ↦ is_infix "Path could not be resolved" s || is_infix "Line could not be resolved" s
]

errors_at : ℕ → Option Value → List Value
unfolding raw_errors
errors_at status parsed = if status == 422 then raw_errors parsed else []

-- `_error_kind`
unfoldable pub error_kind : List Value → Value
unfolding names_anchor
error_kind errors = if any names_anchor errors then str "unresolved_anchor" else null

abbrev excerpt : String → String
excerpt s = str_take 500 s

-- `HTTP <status>: <body>`
http_error : ℕ → String → String
unfolding show_ℕ
http_error status text = "HTTP " ⧺ (show_ℕ status ⧺ (": " ⧺ text))

-- the dict that is returned, and `none` where GitHub answered 401, which raises `GitHubAuthError`
unfoldable pub response_of : Reply → Option Fields
unfolding as_dict http_error error_kind errors_at
response_of (answered status text parsed) = elim (as_dict parsed) [
  | none ↦
      some
        (field "_error" (str (http_error status ("non-dict response body: " ⧺ excerpt text))) end)
  | some d ↦ some d
]
response_of (status_error status text parsed) =
    let errors = errors_at status parsed in
    if status == 401
    then none
    else some (
        field "_error" (str (http_error status (excerpt text))) (
          field "_error_kind" (error_kind errors) (
            field "_raw_errors" (list (items_of errors)) (field "_status" (int (pos status)) end))))
response_of (unreachable error) = some (field "_error" (str error) end)
