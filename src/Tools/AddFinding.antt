-- ===== src/Tools/AddFinding.antt =====
-- `add_finding`: the tool that records one finding, over the diff and the findings store.
use loupfeed_agents.Common.{
  String, Bool, true, false, Option, none, some, if◌then◌else◌, nonempty, str_eq,
}
use loupfeed_agents.Json.{Fields}
use loupfeed_agents.Diff.Anchor.{Side, LineSet, is_range_in_diff, extract_diff_hunk}
use loupfeed_agents.Findings.Client.{Client}
use loupfeed_agents.Findings.Titles.{clip_suggestion, normalize_finding_title}
use loupfeed_agents.Findings.Mutate.{Result, ok, thread_missing, raised, ◌>>=◌, pure}
use loupfeed_agents.Findings.Create.{FindingArgs, new_finding, resolved_id}
use loupfeed_agents.Findings.Thread.{resolve_review_head_sha}
use loupfeed_agents.Findings.Update.{append_finding}
use loupfeed_agents.Tools.Ranges.{AddArgs, full_range, rejection}

-- what the run's configuration holds: the line set where it is a dict, the diff where it is a text
pub record RunConfig : Type 0 where
  pub diff_line_set : Option LineSet
  pub diff_text : Option String
  pub configurable : Fields

-- the dict that the tool returns
pub data Added : Type 0 where
  rejected : String → Added
  out_of_diff : Added
  missing_thread : String → Added
  recorded : String → Bool → Added

unfoldable pub side_of : String → Side
side_of s = if str_eq s "LEFT" then Side.left else Side.right

unfoldable pub in_diff : RunConfig → AddArgs → Bool
unfolding full_range is_range_in_diff side_of
in_diff cfg a = elim cfg.diff_line_set [
  | none ↦ true
  | some lines ↦
      let (s, e) = full_range a.start_line a.end_line in
      is_range_in_diff lines a.file s e (side_of a.side)
]

unfoldable pub stored_hunk : RunConfig → AddArgs → Option String
unfolding full_range extract_diff_hunk
stored_hunk cfg a = elim cfg.diff_text [
  | none ↦ none
  | some text ↦
      let (s, e) = full_range a.start_line a.end_line in
      if nonempty text then extract_diff_hunk text a.file s e else none
]

-- the call of `new_finding`
unfoldable pub finding_args : RunConfig → AddArgs → String → String → FindingArgs
unfolding full_range clip_suggestion normalize_finding_title stored_hunk in_diff
finding_args cfg a new_id head = record {
  new_id = new_id;
  finding_id = none;
  severity = a.severity;
  confidence = a.confidence;
  category = a.category;
  file = a.file;
  start_line = (full_range a.start_line a.end_line).0;
  end_line = (full_range a.start_line a.end_line).1;
  description = a.description;
  sha = head;
  title = some (normalize_finding_title (some a.title) "");
  side = a.side;
  suggestion = (clip_suggestion a.suggestion).0;
  diff_hunk = stored_hunk cfg a;
  in_diff = in_diff cfg a;
}

module _ {S : Type 0} (c : Client S) (tid : String) where
  -- `except ReviewerThreadMissingError`
  abbrev pub caught : Result Added × S → Result Added × S
  caught (ok r, s) = (ok r, s)
  caught (thread_missing t, s) = (ok (missing_thread t), s)
  caught (raised, s) = (raised, s)

  -- the two calls of the store, behind the checks
  unfoldable pub record_finding : RunConfig → AddArgs → String → S → Result Added × S
  unfolding resolve_review_head_sha append_finding new_finding finding_args clip_suggestion
      resolved_id
  record_finding cfg a new_id = do
    head ← resolve_review_head_sha c tid cfg.configurable
    appended ← append_finding c tid (new_finding (finding_args cfg a new_id head))
    pure (recorded (resolved_id (finding_args cfg a new_id head)) (clip_suggestion a.suggestion).1)

  -- the returns in front of the calls
  unfoldable pub judged : Option String → Bool → S → Result Added × S → Result Added × S
  judged (some error) inside s r = (ok (rejected error), s)
  judged none false s r = (ok out_of_diff, s)
  judged none true s r = r

  -- `new_id` is the id that `new_finding_id()` returns
  unfoldable pub add_finding : RunConfig → AddArgs → String → S → Result Added × S
  unfolding judged rejection in_diff record_finding
  add_finding cfg a new_id s =
      judged (rejection a) (in_diff cfg a) s (caught (record_finding cfg a new_id s))
