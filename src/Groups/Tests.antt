-- ===== src/Groups/Tests.antt =====
-- The grouping on small inputs, and the theorems at them.
use loupfeed_agents.Common.{
  String, ◌≡◌, ◌≤◌, ◌+◌, refl, false, List, [], ◌∷◌, map, length, mem_str, strip,
}
use loupfeed_agents.Json.{Fields, end, field, str, dict, items_of}
use loupfeed_agents.Diff.Parse.{parse_unified_diff}
use loupfeed_agents.Groups.Normalize.{ModelGroup, DiffGroup, normalize_groups}
use loupfeed_agents.Groups.Partition.{IsPartition, all_files, normalize_groups-IsPartition}
use loupfeed_agents.Groups.Coverage.{normalize_groups-untitled}
use loupfeed_agents.Groups.Prompt.{
  diff_parts, diff_parts-total, omitted, max_prompt_chars, total_len,
}
use loupfeed_agents.Groups.Store.{payload, group_value}

abbrev untitled : ModelGroup
untitled = record { title = "  "; summary = ""; files = "a.py" ∷ [] }

abbrev feature : ModelGroup
feature = record {
  title = " The feature ";
  summary = "adds it";
  files = "a.py" ∷ "zz" ∷ "b.py" ∷ "b.py" ∷ [];
}

abbrev files : List String
files = "a.py" ∷ "b.py" ∷ "c.py" ∷ []

normalize-feature :
    normalize_groups (feature ∷ untitled ∷ []) files
    ≡ record { title = "The feature"; summary = "adds it"; files = "a.py" ∷ "b.py" ∷ [] } ∷ []
unfolding normalize_groups
normalize-feature = refl

normalize_groups-IsPartition_example :
    IsPartition files (normalize_groups (untitled ∷ feature ∷ []) files)
normalize_groups-IsPartition_example = normalize_groups-IsPartition (untitled ∷ feature ∷ []) files

untitled-blank : strip untitled.title ≡ ""
unfolding strip
untitled-blank = refl

normalize_groups-untitled_example :
    mem_str "a.py" (all_files (normalize_groups (untitled ∷ feature ∷ []) files)) ≡ false
unfolding strip
normalize_groups-untitled_example =
    normalize_groups-untitled untitled (feature ∷ []) files "a.py" refl refl refl

abbrev text : String
text = "diff --git a/a.py b/a.py\n@@ -1 +1 @@\n-x\n+y\n"

diff_parts-total_example :
    (length (diff_parts text) ≡ length (parse_unified_diff text))
    × (total_len (diff_parts text)
        ≤ max_prompt_chars + total_len (map omitted (parse_unified_diff text)))
diff_parts-total_example = diff_parts-total text

abbrev hash : String → String
hash s = s

abbrev grouped : DiffGroup
grouped = record { title = "The feature"; summary = "adds it"; files = "a.py" ∷ [] }

abbrev written : Fields
written = field "kind" (str "reviewer") (
    field "diff_groups"
      (dict (unfold payload group_value items_of in payload "sha" text "t1" (grouped ∷ []))) end)
