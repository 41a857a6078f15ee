-- ===== src/Findings/Tests.antt =====
-- The findings of one thread, read and changed.
use loupfeed_agents.Common.{◌≡◌, refl, true, false, none, some, List, [], ◌∷◌, ◌++◌, min, length}
use mathlib.Core.List.{Perm}
use loupfeed_agents.Json.{
  Value, int, pos, str, list, dict, nil, cons, Fields, end, field, get, has, update, is_str,
  items_of,
}
use loupfeed_agents.Findings.Client.{Client, failed, done, Threads, list_client, write_in}
use loupfeed_agents.Findings.Threads.{list_client-IsMerging}
use loupfeed_agents.Findings.Coerce.{findings_value}
use loupfeed_agents.Findings.Mutate.{ok, list_findings, store_mutated}
use loupfeed_agents.Findings.Stored.{findings_of, Frame}
use loupfeed_agents.Findings.Edits.{Updated}
use loupfeed_agents.Findings.Titles.{clip_suggestion}
use loupfeed_agents.Findings.Update.{
  append_finding, update_finding_fields, append_finding_interaction, fields_edit,
}
use loupfeed_agents.Findings.Operations.{append_finding-Frame, update_finding_fields-Updated}
use loupfeed_agents.Findings.Again.{
  append_finding-failed, append_finding_interaction-append_finding_interaction,
}
use loupfeed_agents.Findings.Surfaced.{InOrder, surfaced, filter_findings_for_publish-InOrder}
use loupfeed_agents.Findings.Select.{filter_findings_for_publish}

abbrev finding_one : Fields
finding_one = field "id" (str "f_1") (
    field "severity" (str "medium") (
      field "status" (str "open")
        (field "file" (str "a.py") (field "start_line" (int (pos 3)) end))))

abbrev finding_two : Fields
finding_two = field "id" (str "f_2") (
    field "severity" (str "critical")
      (field "file" (str "b.py") (field "github_review_comment_id" (int (pos 7)) end)))

abbrev finding_three : Fields
finding_three =
    field "id" (str "f_3") (field "severity" (str "high") (field "status" (str "resolved") end))

abbrev the_metadata : Fields
the_metadata =
    field "kind" (str "reviewer")
      (field "findings" (findings_value (finding_one ∷ finding_two ∷ [])) end)

abbrev the_thread : Value
the_thread = dict (field "metadata" (dict the_metadata) end)

abbrev the_store : Threads
the_store = ("other", end) ∷ ("t", the_metadata) ∷ []

abbrev stored : List Fields → Threads
stored fs =
    ("other", end)
    ∷ ("t", field "kind" (str "reviewer") (field "findings" (findings_value fs) end))
    ∷ []

append_finding-Frame_example :
    (finding_three ≡ finding_three)
    × (list_findings list_client "t" (stored (finding_one ∷ finding_two ∷ finding_three ∷ [])) ≡ (
      ok (findings_of the_thread ++ finding_three ∷ []),
      stored (finding_one ∷ finding_two ∷ finding_three ∷ []),
    ))
    × Frame list_client "t" the_thread the_store
        (stored (finding_one ∷ finding_two ∷ finding_three ∷ []))
unfolding append_finding list_findings store_mutated update items_of is_str get has
append_finding-Frame_example =
    append_finding-Frame list_client list_client-IsMerging "t" the_store the_thread refl
      finding_three finding_three (stored (finding_one ∷ finding_two ∷ finding_three ∷ [])) refl
      refl

abbrev the_updates : Fields
the_updates = field "status" (str "resolved") end

abbrev finding_one_resolved : Fields
finding_one_resolved = field "id" (str "f_1") (
    field "severity" (str "medium") (
      field "status" (str "resolved")
        (field "file" (str "a.py") (field "start_line" (int (pos 3)) end))))

update_finding_fields-Updated_example :
    Updated list_client "t" the_thread the_store
      (stored (finding_one_resolved ∷ finding_two ∷ []))
      "f_1"
      (fields_edit the_updates)
      (some finding_one_resolved)
unfolding update_finding_fields list_findings store_mutated items_of has
update_finding_fields-Updated_example =
    update_finding_fields-Updated list_client list_client-IsMerging "t" the_store the_thread refl
      "f_1" the_updates (some finding_one_resolved)
      (stored (finding_one_resolved ∷ finding_two ∷ [])) refl refl

abbrev the_reply : Fields
the_reply = field "kind" (str "human_reply") (field "github_comment_id" (int (pos 9)) end)

abbrev finding_one_discussed : Fields
finding_one_discussed = field "id" (str "f_1") (
    field "severity" (str "medium") (
      field "status" (str "open") (
        field "file" (str "a.py") (
          field "start_line" (int (pos 3))
            (field "interactions" (list (cons (dict the_reply) nil)) end)))))

append_finding_interaction-append_finding_interaction_example :
    append_finding_interaction list_client "t" "f_1" the_reply
      (stored (finding_one_discussed ∷ finding_two ∷ []))
    ≡ (ok (some finding_one_discussed), stored (finding_one_discussed ∷ finding_two ∷ []))
unfolding append_finding_interaction list_findings store_mutated update items_of
append_finding_interaction-append_finding_interaction_example =
    append_finding_interaction-append_finding_interaction list_client list_client-IsMerging "t"
      the_store the_thread refl "f_1" the_reply finding_one_discussed
      (stored (finding_one_discussed ∷ finding_two ∷ [])) refl refl

-- a client whose reads fail while its writes reach the store
abbrev unread : Client Threads
unread = record { fetch = λ tid s. failed; write = write_in }

append_finding-failed_example :
    write_in "t" (field "findings" (findings_value (finding_three ∷ [])) end) the_store
    ≡ done (stored (finding_three ∷ []))
unfolding append_finding list_findings store_mutated update items_of is_str get has
append_finding-failed_example =
    append_finding-failed unread "t" the_store finding_three finding_three
      (stored (finding_three ∷ [])) refl refl

filter_findings_for_publish-InOrder_example :
    (rest : List Fields) × InOrder (
      filter_findings_for_publish (finding_one ∷ finding_two ∷ finding_three ∷ []) "medium" 1
      ++ rest)
    × Perm
        (filter_findings_for_publish (finding_one ∷ finding_two ∷ finding_three ∷ []) "medium" 1
          ++ rest)
        (surfaced "medium" (finding_one ∷ finding_two ∷ finding_three ∷ []))
    × (length
          (filter_findings_for_publish (finding_one ∷ finding_two ∷ finding_three ∷ []) "medium" 1)
        ≡ min 1 (length (surfaced "medium" (finding_one ∷ finding_two ∷ finding_three ∷ []))))
filter_findings_for_publish-InOrder_example =
    filter_findings_for_publish-InOrder (finding_one ∷ finding_two ∷ finding_three ∷ []) "medium" 1

published :
    filter_findings_for_publish (finding_one ∷ finding_two ∷ finding_three ∷ []) "medium" 1
    ≡ finding_two ∷ []
unfolding filter_findings_for_publish
published = refl

long_suggestion : clip_suggestion (some "a\nb\nc\nd\ne") ≡ (none, true)
unfolding clip_suggestion
long_suggestion = refl

short_suggestion : clip_suggestion (some "a\nb\nc\nd") ≡ (some "a\nb\nc\nd", false)
unfolding clip_suggestion
short_suggestion = refl
