-- ===== src/Tools/Tests.antt =====
-- A finding recorded on a small diff, and one that is refused.
use loupfeed_agents.Common.{
  ℕ, ◌≤◌, String, ◌≡◌, refl, true, false, Option, none, some, [], ◌∷◌, all,
}
use loupfeed_agents.Json.{Value, dict, str, field, end, update, items_of}
use loupfeed_agents.Diff.Parse.{parse_unified_diff}
use loupfeed_agents.Diff.Header.{file_header, hunk_header}
use loupfeed_agents.Diff.Anchor.{lines_between, compute_diff_line_set}
use loupfeed_agents.Diff.Cover.{is_covered}
use loupfeed_agents.Findings.Client.{
  Client, done, missing, broken, Threads, fetch_in, write_in, list_client,
}
use loupfeed_agents.Findings.Coerce.{findings_value}
use loupfeed_agents.Findings.Mutate.{ok, raised, list_findings, store_mutated}
use loupfeed_agents.Findings.Create.{new_finding}
use loupfeed_agents.Tools.Ranges.{AddArgs, full_range}
use loupfeed_agents.Tools.AddFinding.{
  RunConfig, recorded, out_of_diff, side_of, finding_args, add_finding,
}
use loupfeed_agents.Tools.Recorded.{add_finding-is_covered}
use loupfeed_agents.Tools.Unwritten.{Left, add_finding_unwritten}

abbrev text : String
text = "diff --git a/a.py b/a.py\n@@ -1 +1 @@\n-x\n+y\n"

abbrev config : RunConfig
config = record {
  diff_line_set = some (compute_diff_line_set text);
  diff_text = some text;
  configurable = field "head_sha" (str "c0ffee") end;
}

abbrev on_line : Option ℕ → AddArgs
on_line n = record {
  severity = "high";
  confidence = "medium";
  category = "correctness";
  file = "a.py";
  title = "Missing guard";
  description = "The list may be empty.";
  start_line = n;
  end_line = none;
  suggestion = none;
  side = "RIGHT";
}

abbrev the_store : Threads
the_store = ("t", field "findings" (findings_value []) end) ∷ []

abbrev the_thread : Value
the_thread = dict (field "metadata" (dict (field "findings" (findings_value []) end)) end)

abbrev stored : Threads
stored =
    (
      "t",
      field "findings"
          (findings_value
            (new_finding (finding_args config (on_line (some 1)) "f_1" "c0ffee") ∷ []))
          end,
    )
    ∷ []

recorded_one :
    add_finding list_client "t" config (on_line (some 1)) "f_1" the_store
    ≡ (ok (recorded "f_1" false), stored)
unfolding add_finding list_findings store_mutated update items_of file_header hunk_header
    compute_diff_line_set
recorded_one = refl

add_finding-is_covered_example :
    (1 ≤ 1)
    × (all (is_covered (parse_unified_diff text) "a.py" (side_of "RIGHT")) (lines_between 1 1)
        ≡ true)
unfolding full_range
add_finding-is_covered_example =
    add_finding-is_covered list_client "t" config (on_line (some 1)) "f_1" the_store "f_1" false
      stored text 1 1 refl refl recorded_one

refused :
    add_finding list_client "t" config (on_line (some 9)) "f_1" the_store
    ≡ (ok out_of_diff, the_store)
unfolding add_finding file_header hunk_header compute_diff_line_set
refused = refl

add_finding_unwritten_example :
    Left list_client "t" config
      (on_line (some 9))
      "f_1"
      the_store
      (add_finding list_client "t" config (on_line (some 9)) "f_1" the_store)
add_finding_unwritten_example =
    add_finding_unwritten list_client "t" config (on_line (some 9)) "f_1" the_store
      (rw refused refl)

-- a client whose writes are carried out and raise all the same
abbrev breaking : Client Threads
breaking = record {
  fetch = fetch_in;
  write = λ tid new s. elim (write_in tid new s) [
    | done s' ↦ broken s'
    | missing ↦ missing
    | broken s' ↦ broken s'
  ];
}

-- The tool raises, and the finding is there.
written_and_raised :
    add_finding breaking "t" config (on_line (some 1)) "f_1" the_store ≡ (raised, stored)
unfolding add_finding list_findings store_mutated update items_of file_header hunk_header
    compute_diff_line_set
written_and_raised = refl
