-- ===== src/Publish/Select.antt =====
-- Which findings a publication posts, with their payloads.
use loupfeed_agents.Common.{
  ℕ, String, Bool, true, ◌&&◌, ◌||◌, not, none, some, List, [], ◌∷◌, if◌then◌else◌,
}
use loupfeed_agents.Json.{Value, bool, str, Fields, get, is_int, truthy, eq_text}
use loupfeed_agents.Findings.Select.{filter_findings_for_publish}
use loupfeed_agents.Publish.Render.{get_else, render_inline_comment_payload}

-- `[f for f in findings if test(f)]`
unfoldable pub keep : (Fields → Bool) → List Fields → List Fields
keep test [] = []
keep test (f ∷ fs) = let rest = keep test fs in if test f then f ∷ rest else rest

-- no comment of an earlier publication; on a re-review, first seen at the head
unfoldable pub is_unpublished : Bool → String → Fields → Bool
unfolding is_int get eq_text
is_unpublished is_re_review head f =
    not (is_int (get "github_review_comment_id" f))
    && (not is_re_review || eq_text (get "first_seen_sha" f) head)

-- `f.get("in_diff", True)`
unfoldable pub is_in_diff : Fields → Bool
unfolding truthy get_else
is_in_diff f = truthy (get_else "in_diff" (bool true) f)

-- `f.get("status", "open") == "open"`
unfoldable pub is_open : Fields → Bool
unfolding eq_text get_else
is_open f = eq_text (get_else "status" (str "open") f) "open"

-- `unpublished_findings`
unfoldable pub unpublished_findings : Bool → String → List Fields → List Fields
unfolding keep is_unpublished
unpublished_findings is_re_review head findings = keep (is_unpublished is_re_review head) findings

-- `eligible`
unfoldable pub selected : Bool → String → String → ℕ → List Fields → List Fields
unfolding unpublished_findings keep is_in_diff filter_findings_for_publish
selected is_re_review head threshold cap findings =
    filter_findings_for_publish (keep is_in_diff (unpublished_findings is_re_review head findings))
      threshold cap

-- `eligible_with_payload`
unfoldable pub with_payload : (Value → String) → List Fields → List (Fields × Fields)
unfolding render_inline_comment_payload
with_payload json_dumps [] = []
with_payload json_dumps (f ∷ fs) =
    let rest = with_payload json_dumps fs in
    elim (render_inline_comment_payload json_dumps f) [ none ↦ rest | some p ↦ (f, p) ∷ rest ]
