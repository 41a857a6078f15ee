-- ===== src/Tools/Ranges.antt =====
-- The range of a finding as the tool reads it, and the tool's checks of its arguments.
use loupfeed_agents.Common.{
  ℕ, ltb, String, Bool, false, not, Option, none, some, [], ◌∷◌, if◌then◌else◌, mem_str, str_eq,
  ◌⧺◌,
}
use loupfeed_agents.Findings.Titles.{default_finding_title, normalize_finding_title}

-- the arguments of the tool
pub record AddArgs : Type 0 where
  pub severity : String
  pub confidence : String
  pub category : String
  pub file : String
  pub title : String
  pub description : String
  pub start_line : Option ℕ
  pub end_line : Option ℕ
  pub suggestion : Option String
  pub side : String

-- A range with one line given has it at both ends.
unfoldable pub full_range : Option ℕ → Option ℕ → Option ℕ × Option ℕ
full_range none none = (none, none)
full_range (some s) none = (some s, some s)
full_range none (some e) = (some e, some e)
full_range (some s) (some e) = (some s, some e)

-- `start_line is not None and end_line is not None and end_line < start_line`
unfoldable pub is_reversed : Option ℕ × Option ℕ → Bool
is_reversed (some s, some e) = ltb e s
is_reversed _ = false

-- the error of the first check that fails
unfoldable pub rejection : AddArgs → Option String
unfolding normalize_finding_title full_range is_reversed
rejection a =
    if str_eq (normalize_finding_title (some a.title) "") default_finding_title
    then some "title must be a non-empty generated headline"
    else if not (mem_str a.severity ("low" ∷ "medium" ∷ "high" ∷ "critical" ∷ []))
    then some ("Invalid severity: " ⧺ a.severity)
    else if not (mem_str a.confidence ("low" ∷ "medium" ∷ "high" ∷ []))
    then some ("Invalid confidence: " ⧺ a.confidence)
    else if not (mem_str a.side ("LEFT" ∷ "RIGHT" ∷ []))
    then some ("Invalid side: " ⧺ a.side)
    else if is_reversed (full_range a.start_line a.end_line)
    then some "end_line must be >= start_line"
    else none
