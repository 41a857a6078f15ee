-- ===== src/Findings/Legacy.antt =====
-- The legacy GitHub fields of a finding beside its surface record: `_sync_legacy_surface_fields`.
use loupfeed_agents.Common.{String, ◌≡◌, ◌≢◌, true, false, ◌||◌, arith, str_eq, eq_iff}
use loupfeed_agents.Common.{if◌then◌else◌}
use loupfeed_agents.Json.{
  bool, dict, Fields, get, update, is_int, is_null, is_str, eq_text, get-put,
}
use loupfeed_agents.Findings.Update.{coerce_surface, sync_legacy_surface_fields, surface_edit}
use loupfeed_agents.Findings.Operations.{get-put_if}

-- The finding `f'` shows the record `surface` in its legacy fields, and is `f` elsewhere.
pub record ShowsSurface (f surface f' : Fields) : Type 0 where
  pub stored : get "surface" f' ≡ dict surface
  pub review : get "github_review_id" f' ≡ (
      if is_int (get "github_review_id" surface) || is_null (get "github_review_id" surface)
      then get "github_review_id" surface
      else get "github_review_id" f)
  pub comment : get "github_review_comment_id" f' ≡ (
      if is_int (get "github_review_comment_id" surface)
        || is_null (get "github_review_comment_id" surface)
      then get "github_review_comment_id" surface
      else get "github_review_comment_id" f)
  pub thread : get "github_review_thread_id" f' ≡ (
      if is_str (get "github_review_thread_id" surface)
        || is_null (get "github_review_thread_id" surface)
      then get "github_review_thread_id" surface
      else get "github_review_thread_id" f)
  pub resolved : get "github_thread_resolved" f' ≡ (
      if eq_text (get "state" surface) "resolved"
      then bool true
      else get "github_thread_resolved" f)
  pub elsewhere :
      (k : String)
      → k ≢ "surface"
      → k ≢ "github_review_id"
      → k ≢ "github_review_comment_id"
      → k ≢ "github_review_thread_id"
      → k ≢ "github_thread_resolved"
      → get k f' ≡ get k f

str_eq_other : (k j : String) → j ≢ k → str_eq k j ≡ false
str_eq_other k j ne = ground (arith, eq_iff k j, ne)

-- After an update of its surface a finding holds the updated record, its legacy fields agree with
-- the record where that has a value of their type, and nothing else of it has changed.
pub surface_edit-ShowsSurface :
    (fid : String) (updates f : Fields)
    → ShowsSurface f (update (coerce_surface f fid) updates) (surface_edit fid updates f).0
unfolding surface_edit sync_legacy_surface_fields
surface_edit-ShowsSurface fid updates f = record {
  stored = simp (get-put_if, get-put);
  review = simp (get-put_if, get-put);
  comment = simp (get-put_if, get-put);
  thread = simp (get-put_if, get-put);
  resolved = simp (get-put_if, get-put);
  elsewhere = λ k a b c d e. simp (
    get-put_if,
    get-put,
    str_eq_other "surface" k a,
    str_eq_other "github_review_id" k b,
    str_eq_other "github_review_comment_id" k c,
    str_eq_other "github_review_thread_id" k d,
    str_eq_other "github_thread_resolved" k e,
  );
}
