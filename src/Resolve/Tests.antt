-- ===== src/Resolve/Tests.antt =====
-- A finding with one comment on GitHub, resolved through its thread, directly, and again.
use loupfeed_agents.Common.{String, ◌≡◌, refl, true, false, Option, none, some, [], ◌∷◌}
use loupfeed_agents.Json.{Value, str, int, pos, dict, Fields, field, end, items_of, update}
use loupfeed_agents.Findings.Client.{Threads, list_client}
use loupfeed_agents.Findings.Threads.{list_client-IsMerging}
use loupfeed_agents.Findings.Coerce.{findings_value}
use loupfeed_agents.Findings.Mutate.{ok, store_mutated, list_findings}
use loupfeed_agents.Resolve.Notes.{normalize_note}
use loupfeed_agents.Resolve.GitHub.{GitHub, EmitsApart}
use loupfeed_agents.Resolve.Loop.{Loop}
use loupfeed_agents.Resolve.Tool.{
  resolved, is_terminal, resolve_finding_thread, resolve_threads, record_resolution, loop_start,
  all_in,
}
use loupfeed_agents.Resolve.Settled.{settled}
use loupfeed_agents.Resolve.Stored.{IsSettled}
use loupfeed_agents.Resolve.Update.{UpdateArgs, rejected, updated, update_finding}
use loupfeed_agents.Resolve.Noted.{update_finding-IsSettled}
use loupfeed_agents.Resolve.Again.{resolve_threads-settled}
use loupfeed_agents.Common.{Bool}
use loupfeed_agents.Findings.Update.{fields_edit, interaction_edit}
use loupfeed_agents.Resolve.Reply.{reply_updates, bot_reply}

-- GitHub answers every call
abbrev github : GitHub Threads
github = record {
  fetch_review_thread_id_for_comment = λ z s. (ok (some "T1"), s);
  fetch_pr_review_threads = λ s. (ok [], s);
  reply_to_review_comment = λ z body s. (ok (some (field "id" (int (pos 9)) end)), s);
  resolve_review_thread = λ t s. (ok true, s);
  emit_finding_status_outcome = λ f status s. s;
}

github-EmitsApart : EmitsApart list_client "t" github
github-EmitsApart = record { same = λ f status s. refl }

abbrev no_json : String → Option Value
no_json s = none

abbrev finding : Fields
finding =
    field "id" (str "f_1")
      (field "status" (str "open") (field "github_review_comment_id" (int (pos 7)) end))

abbrev unpublished : Fields
unpublished = field "id" (str "f_2") (field "status" (str "open") end)

abbrev the_store : Threads
the_store = ("t", field "findings" (findings_value (finding ∷ unpublished ∷ [])) end) ∷ []

abbrev run_config : Fields
run_config =
    field "repo" (dict (field "owner" (str "o") (field "name" (str "r") end)))
      (field "pr_number" (int (pos 3)) end)

abbrev the_loop : Loop
the_loop = record { resolved = "T1" ∷ []; posted = pos 7 ∷ []; count = 1 }

abbrev the_settled : Fields
the_settled = settled "f_1" "resolved" "Fixed." ("T1" ∷ []) the_loop finding

abbrev settled_store : Threads
settled_store = ("t", field "findings" (findings_value (the_settled ∷ unpublished ∷ [])) end) ∷ []

resolved_one :
    resolve_finding_thread list_client "t" github no_json run_config "token" "f_1"
      (some " Fixed. ")
      "resolved"
      the_store
    ≡ (ok (resolved (some the_settled) 1), settled_store)
unfolding resolve_finding_thread store_mutated items_of update
resolved_one = refl

abbrev dismiss : String → Option String → UpdateArgs
dismiss id note = record {
  finding_id = id;
  new_status = some "dismissed";
  severity = none;
  confidence = none;
  title = none;
  description = none;
  suggestion = none;
  note = note;
}

abbrev dismissed : Fields
dismissed = field "id" (str "f_2") (
    field "status" (str "dismissed") (
      field "last_update_note" (str "Not a bug.") (field "resolution_note" (str "Not a bug.") end)))

abbrev dismissed_store : Threads
dismissed_store = ("t", field "findings" (findings_value (finding ∷ dismissed ∷ [])) end) ∷ []

dismissed_one :
    update_finding list_client "t" github no_json run_config "token"
      (dismiss "f_2" (some "Not a bug."))
      the_store
    ≡ (ok (updated (some dismissed) false), dismissed_store)
unfolding update_finding store_mutated items_of update list_findings
dismissed_one = refl

update_finding-IsSettled_example :
    (note : String) × (normalize_note (some "Not a bug.") ≡ some note)
    × IsSettled list_client "t" "f_2" "dismissed" note dismissed dismissed_store
unfolding is_terminal
update_finding-IsSettled_example =
    update_finding-IsSettled list_client "t" list_client-IsMerging github github-EmitsApart no_json
      run_config "token" (dismiss "f_2" (some "Not a bug.")) "dismissed" dismissed false the_store
      dismissed_store refl refl dismissed_one

without_note :
    update_finding list_client "t" github no_json run_config "token"
      (dismiss "f_2" (some "  "))
      the_store
    ≡ (
      ok (rejected "Resolving or dismissing a finding requires a note with the message to post."),
      the_store,
    )
unfolding update_finding
without_note = refl

resolve_threads-settled_example :
    resolve_threads list_client "t" github no_json the_settled "f_1" "dismissed" "No."
      ("T1" ∷ [])
      settled_store
    ≡ record_resolution list_client "t" github no_json "f_1" "dismissed" "No."
        ("T1" ∷ [])
        (loop_start the_settled)
        settled_store
unfolding normalize_note all_in
resolve_threads-settled_example =
    resolve_threads-settled list_client "t" github no_json "f_1" "resolved" "Fixed." "dismissed"
      "No." "No." ("T1" ∷ []) the_loop finding settled_store refl refl refl

abbrev edited_with : (Fields → Fields × Bool) → Fields → Fields
edited_with edit f = (edit f).0

abbrev with_reply : Fields
with_reply =
    edited_with (interaction_edit (bot_reply "Thanks." (pos 7) (int (pos 9))))
      (edited_with (fields_edit (reply_updates (int (pos 9)))) finding)

abbrev replied_store : Threads
replied_store = ("t", field "findings" (findings_value (with_reply ∷ unpublished ∷ [])) end) ∷ []
