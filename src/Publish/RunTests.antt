-- ===== src/Publish/RunTests.antt =====
-- Publications of one finding: posted, refused, and for a thread that cannot be read.
use loupfeed_agents.Common.{
  String, ◌≡◌, refl, false, Option, none, some, List, [], ◌∷◌, if◌then◌else◌, length, ◌==◌,
}
use loupfeed_agents.Json.{Value, str, int, pos, dict, Fields, field, end, list, items_of}
use loupfeed_agents.Findings.Client.{Client, failed, broken}
use loupfeed_agents.Findings.Coerce.{findings_value}
use loupfeed_agents.Findings.Mutate.{ok, then_run}
use loupfeed_agents.Findings.Thread.{resolve_review_head_sha}
use loupfeed_agents.Diff.Anchor.{LineSet}
use loupfeed_agents.Publish.Render.{render_review_body}
use loupfeed_agents.Publish.Settle.{review_check_conclusion, settle_review_check_run}
use loupfeed_agents.Publish.Post.{status_error, response_of}
use loupfeed_agents.Publish.Host.{Host, Run, Outcome, reviewed, Attempt, taken}
use loupfeed_agents.Publish.Flow.{attempt, answered, publish_attempt}
use loupfeed_agents.Publish.Tool.{publish_review_async}
use loupfeed_agents.Publish.Advanced.{Advanced}
use loupfeed_agents.Publish.Whole.{publish_review_async-Advanced}
use loupfeed_agents.Publish.Anchored.{Taken, Resolved, Sent, attempt-Taken}
use loupfeed_agents.Publish.Unread.{publish_review_async-failed}
use loupfeed_agents.Publish.OneThread.{
  one_client, one_reads, one_client-IsMerging, host_with-HostApart, host,
}

abbrev the_run : Run
the_run = record {
  owner = "o";
  repo = "r";
  pr_number = pos 7;
  threshold = "medium";
  cap = 4;
  is_re_review = false;
  run = "";
  ui_url = "";
  diff_line_set = none;
}

abbrev finding : Fields
finding = field "id" (str "f_1") (
    field "severity" (str "high") (
      field "file" (str "a.py") (
        field "start_line" (int (pos 3)) (
          field "end_line" (int (pos 4)) (
            field "description" (str "The loop stops early.") (field "status" (str "open") end))))))

abbrev no_json : String → Option Value
no_json s = none

abbrev json : Value → String
json v = "{}"

abbrev the_thread : Fields
the_thread =
    field "findings" (findings_value (finding ∷ []))
      (field "head_sha" (str "new") (field "review_check_run_id" (int (pos 9)) end))

abbrev behind : Fields
behind = (publish_review_async one_client "t" host no_json json the_run "old" the_thread).1

abbrev the_outcome : Outcome
the_outcome = reviewed (some (pos 5)) 1 0 0 []

published_one :
    publish_review_async one_client "t" host no_json json the_run "old" the_thread
    ≡ (ok the_outcome, behind)
unfolding publish_review_async
published_one = refl

publish_review_async-Advanced_example :
    (head : String) × (t : Fields) × (resolve_review_head_sha one_client "t"
        (field "head_sha" (str "old") end)
        the_thread
      ≡ (ok head, t))
    × Advanced one_client "t" host
        (host_with-HostApart (field "id" (int (pos 5)) end))
        one_client-IsMerging
        one_reads
        no_json
        head
        the_thread
        the_outcome
        behind
publish_review_async-Advanced_example =
    publish_review_async-Advanced one_client "t" host
      (host_with-HostApart (field "id" (int (pos 5)) end)) one_client-IsMerging one_reads no_json
      json the_run "old" the_thread the_outcome behind published_one

-- a refusal that names an anchor, of a review with one finding in the diff and one that is not
abbrev payload : String → Fields
payload path = field "path" (str path) (field "line" (int (pos 4)) end)

abbrev two : List (Fields × Fields)
two = (finding, payload "a.py") ∷ (field "id" (str "f_2") end, payload "b.py") ∷ []

abbrev errors : List Value
errors = str "Path could not be resolved" ∷ []

abbrev refusal : Fields
refusal = field "_error" (str "HTTP 422: no") (
    field "_error_kind" (str "unresolved_anchor")
      (field "_raw_errors" (list (items_of errors)) (field "_status" (int (pos 422)) end)))

refused_anchor :
    response_of (status_error 422 "no" (some (dict (field "errors" (list (items_of errors)) end))))
    ≡ some refusal
unfolding response_of items_of
refused_anchor = refl

-- GitHub takes a review of one comment, and no other
abbrev strict : Host Fields
strict = record host {
  post_pull_request_review = λ head body comments s.
      (ok (if length comments == 1 then field "id" (int (pos 5)) end else refusal), s);
}

abbrev one_line : LineSet
one_line = ("a.py", record { right = 3 ∷ 4 ∷ []; left = [] }) ∷ []

abbrev strict_run : Run
strict_run = record the_run { diff_line_set = some one_line }

abbrev the_attempt : Attempt
the_attempt = taken (field "id" (int (pos 5)) end) ((finding, payload "a.py") ∷ []) ("f_2" ∷ [])

attempted_two :
    attempt one_client "t" strict no_json strict_run "new" "" two the_thread
    ≡ (ok the_attempt, the_thread)
unfolding attempt
attempted_two = refl

attempt-Taken_example :
    Taken
      (Resolved one_client "t" strict no_json strict_run)
      (Sent one_client "t" strict no_json strict_run "new" "")
      two
      the_attempt
attempt-Taken_example =
    attempt-Taken one_client "t" strict no_json strict_run "new" "" two the_thread the_attempt
      the_thread attempted_two

-- the check run of the thread, which GitHub does not complete
abbrev pending_thread : Fields
pending_thread =
    (settle_review_check_run one_client "t" host.requests (review_check_conclusion 1) the_thread).1

-- a client that answers nothing
abbrev failing : Client Fields
failing = record { fetch = λ tid md. failed; write = λ tid new md. broken md }

publish_review_async-failed_example :
    publish_review_async failing "t" host no_json json the_run "old" the_thread
    ≡ then_run (publish_attempt failing "t" host no_json the_run "old" 0) (
        then_run
          (answered failing "t" host no_json the_run "old" "" [])
          (host.post_pull_request_review "old" (render_review_body (pos 7) 0 "" "") [] the_thread))
publish_review_async-failed_example =
    publish_review_async-failed failing "t" host no_json json the_run "old" "" the_thread the_thread
      the_thread refl refl refl refl refl
