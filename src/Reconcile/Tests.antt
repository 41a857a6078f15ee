-- ===== src/Reconcile/Tests.antt =====
-- One finding with a resolved thread on GitHub, in which a human has replied.
use loupfeed_agents.Common.{
  String, ◌≡◌, refl, true, false, ◌&&◌, Option, none, some, List, [], ◌∷◌, map, if◌then◌else◌,
}
use loupfeed_agents.Json.{
  Value, bool, int, pos, str, list, dict, nil, cons, Fields, end, field, get, update, items_of,
  eq_text,
}
use loupfeed_agents.Findings.Client.{Threads, list_client}
use loupfeed_agents.Findings.Threads.{list_client-IsMerging}
use loupfeed_agents.Findings.Coerce.{findings_value}
use loupfeed_agents.Findings.Mutate.{ok, list_findings}
use loupfeed_agents.Findings.Stored.{findings_of, Frame}
use loupfeed_agents.Reconcile.Marker.{search_marker}
use loupfeed_agents.Reconcile.Match.{index_review_threads, find_review_threads_for_finding}
use loupfeed_agents.Reconcile.Latest.{
  sync_latest_human_reply, sync_latest_human_reply-sync_latest_human_reply,
}
use loupfeed_agents.Reconcile.Run.{reconcile_finding, reconcile_findings_with_review_threads}
use loupfeed_agents.Reconcile.Stored.{reconcile_findings_with_review_threads-Frame}
use loupfeed_agents.Reconcile.Status.{is_settled, reconcile_finding-is_settled}

abbrev bot_comment : Fields
bot_comment =
    field "id" (int (pos 11))
      (field "author" (str "open-swe[bot]") (field "body" (str "A finding") end))

abbrev reply : Fields
reply = field "id" (int (pos 12)) (
    field "author" (str "ann")
      (field "body" (str "Not so.") (field "created_at" (str "2026-01-01") end)))

abbrev review_thread : Fields
review_thread = field "id" (str "T1") (
    field "is_resolved" (bool true)
      (field "comments" (list (cons (dict bot_comment) (cons (dict reply) nil))) end))

abbrev finding : Fields
finding =
    field "id" (str "f_1")
      (field "status" (str "open") (field "github_review_comment_id" (int (pos 11)) end))

abbrev no_json : String → Option Value
no_json s = none

abbrev stored : List Fields → Threads
stored fs = ("t", field "findings" (findings_value fs) end) ∷ []

abbrev the_thread : Value
the_thread =
    dict (field "metadata" (dict (field "findings" (findings_value (finding ∷ [])) end)) end)

abbrev reconciled : Fields
reconciled = (reconcile_finding (index_review_threads no_json (review_thread ∷ [])) finding).0

now_resolved : get "status" reconciled ≡ str "resolved"
unfolding reconcile_finding index_review_threads
now_resolved = refl

marker_found :
    search_marker "A finding.\n<!-- open-swe-review-comment {\"id\": \"f_1\"} -->"
    ≡ some "{\"id\": \"f_1\"}"
unfolding search_marker
marker_found = refl

reconcile_findings_with_review_threads-Frame_example :
    ((reconciled ∷ [])
      ≡ map
          (λ f. (reconcile_finding (index_review_threads no_json (review_thread ∷ [])) f).0)
          (findings_of the_thread))
    × (list_findings list_client "t" (stored (reconciled ∷ []))
        ≡ (ok (reconciled ∷ []), stored (reconciled ∷ [])))
    × Frame list_client "t" the_thread (stored (finding ∷ [])) (stored (reconciled ∷ []))
unfolding reconcile_findings_with_review_threads reconcile_finding index_review_threads update
    items_of get
reconcile_findings_with_review_threads-Frame_example =
    reconcile_findings_with_review_threads-Frame list_client list_client-IsMerging "t"
      (stored (finding ∷ [])) the_thread no_json (review_thread ∷ []) (reconciled ∷ [])
      (stored (reconciled ∷ [])) refl refl

sync_latest_human_reply-sync_latest_human_reply_example :
    sync_latest_human_reply
      (sync_latest_human_reply finding (review_thread, some (pos 11))).0
      (review_thread, some (pos 11))
    ≡ ((sync_latest_human_reply finding (review_thread, some (pos 11))).0, false)
sync_latest_human_reply-sync_latest_human_reply_example =
    sync_latest_human_reply-sync_latest_human_reply finding (review_thread, some (pos 11))

reconcile_finding-is_settled_example : get "status" reconciled ≡ (
    if is_settled (
        find_review_threads_for_finding finding (index_review_threads no_json (review_thread ∷ [])))
      && eq_text (get "status" finding) "open"
    then str "resolved"
    else get "status" finding)
reconcile_finding-is_settled_example =
    reconcile_finding-is_settled (index_review_threads no_json (review_thread ∷ [])) finding
