-- ===== src/Resolve/Tool.antt =====
-- `resolve_finding_thread`: the checks, the threads on GitHub, and what is stored.
use loupfeed_agents.Common.{
  ℕ, String, Bool, ◌&&◌, ◌||◌, not, Option, none, some, List, [], ◌∷◌, all, null, if◌then◌else◌,
  ◌==◌, mem_str, nonempty, ◌⧺◌,
}
use loupfeed_agents.Json.{Value, null as json_null, bool, str, Fields, field, end, get}
use loupfeed_agents.Findings.Client.{Client}
use loupfeed_agents.Findings.Mutate.{Result, ok, thread_missing, raised, ◌>>=◌, pure}
use loupfeed_agents.Findings.Update.{put_if, update_finding_fields, update_finding_surface}
use loupfeed_agents.Findings.Thread.{get_finding}
use loupfeed_agents.Reconcile.Replies.{int_list, str_list}
use loupfeed_agents.Reconcile.Run.{reconcile_findings_with_review_threads}
use loupfeed_agents.Reconcile.Sync.{int_items, str_items}
use loupfeed_agents.Resolve.Notes.{
  normalize_note, render_resolution_comment, comment_ids_for_finding, thread_ids_for_finding,
  has_target,
}
use loupfeed_agents.Resolve.GitHub.{GitHub}
use loupfeed_agents.Resolve.Loop.{Loop, collect_thread_ids, resolve_all}

-- the dict that the tool returns: an error, the finding with the number of threads that were
-- resolved, or a thread of the store that is missing
pub data Resolution : Type 0 where
  refused : String → Resolution
  resolved : Option Fields → ℕ → Resolution
  gone : String → Resolution

-- `status in {"resolved", "dismissed"}`
unfoldable pub is_terminal : String → Bool
is_terminal status = mem_str status ("resolved" ∷ "dismissed" ∷ [])

unfoldable pub all_in : List String → List String → Bool
all_in ids known = all (λ t. mem_str t known) ids

first_id : List String → Value
first_id [] = json_null
first_id (t ∷ ts) = str t

-- the updates of the finding behind the loop
unfoldable pub resolution_updates : String → String → List String → Loop → Fields
unfolding first_id all_in put_if
resolution_updates status note ids l =
    put_if (not (null l.posted)) "github_posted_resolution_comment_ids" (int_items l.posted) (
      field "status" (str status) (
        field "github_review_thread_id" (first_id ids) (
          field "github_review_thread_ids" (str_items ids) (
            field "github_resolved_thread_ids" (str_items l.resolved) (
              field "github_thread_resolved" (bool (all_in ids l.resolved)) (
                field "last_reconciliation_note" (str note)
                  (field "resolution_note" (str note) end)))))))

unfoldable pub surface_updates : List String → Loop → Fields
unfolding all_in first_id
surface_updates ids l =
    let whole = all_in ids l.resolved in
    field "state" (str (if whole then "resolved" else "resolve_pending")) (
      field "github_review_thread_id" (first_id ids) (
        field "last_error" (if whole then json_null else str "Not all GitHub threads resolved")
          end))

-- where the loop starts
unfoldable pub loop_start : Fields → Loop
unfolding str_list int_list get
loop_start finding = record {
  resolved = str_list (get "github_resolved_thread_ids" finding);
  posted = int_list (get "github_posted_resolution_comment_ids" finding);
  count = 0;
}

module _ {S : Type 0} (c : Client S) (tid : String) (gh : GitHub S)
    (json_loads : String → Option Value) where
  -- the writes behind the loop, and the finding as it is then stored
  unfoldable pub record_resolution :
      String → String → String → List String → Loop → S → Result Resolution × S
  unfolding resolution_updates surface_updates update_finding_fields update_finding_surface
      get_finding
  record_resolution fid status note ids l = do
    fields ← update_finding_fields c tid fid (resolution_updates status note ids l)
    surface ← update_finding_surface c tid fid (surface_updates ids l)
    updated ← get_finding c tid fid
    pure (resolved updated l.count)

  unfoldable pub settle_loop :
      String → String → String → List String → Loop → S → Result Resolution × S
  unfolding record_resolution all_in
  settle_loop fid status note ids l =
      if l.count == 0 && not (all_in ids l.resolved)
      then pure (refused "GitHub did not resolve the review thread")
      else record_resolution fid status note ids l

  -- behind the body of the replies
  unfoldable pub with_body :
      Fields → String → String → String → List String → Option String → S → Result Resolution × S
  unfolding resolve_all comment_ids_for_finding loop_start settle_loop
  with_body finding fid status note ids none = pure (refused "Missing resolution note")
  with_body finding fid status note ids (some body) = do
    l ← resolve_all gh body ids (comment_ids_for_finding finding) (loop_start finding)
    settle_loop fid status note ids l

  -- the replies and resolutions for the threads of the finding
  unfoldable pub resolve_threads :
      Fields → String → String → String → List String → S → Result Resolution × S
  unfolding render_resolution_comment with_body
  resolve_threads finding fid status note ids =
      with_body finding fid status note ids (render_resolution_comment finding status (some note))

  -- `_get_finding_with_pr_backfill`, behind the first read
  unfoldable pub backfill : String → Option Fields → S → Result (Option Fields) × S
  unfolding thread_ids_for_finding comment_ids_for_finding get_finding
      reconcile_findings_with_review_threads
  backfill fid none = pure none
  backfill fid (some finding) =
      if not (null (thread_ids_for_finding finding)) || not (null (comment_ids_for_finding finding))
      then pure (some finding)
      else (do
        threads ← gh.fetch_pr_review_threads
        if null threads then pure (some finding) else (do
          findings ← reconcile_findings_with_review_threads c tid json_loads threads
          get_finding c tid fid))

  -- behind the finding
  unfoldable pub resolve_found :
      String → String → String → Option Fields → S → Result Resolution × S
  unfolding collect_thread_ids comment_ids_for_finding thread_ids_for_finding resolve_threads
  resolve_found fid status note none = pure (refused ("No finding found with id " ⧺ fid))
  resolve_found fid status note (some finding) = do
    ids ← collect_thread_ids gh (comment_ids_for_finding finding) (thread_ids_for_finding finding)
    if null ids
        then pure (refused "Could not resolve GitHub review thread id")
        else resolve_threads finding fid status note ids

  -- `_resolve_finding_thread_async`
  unfoldable pub resolve_async : String → String → String → S → Result Resolution × S
  unfolding get_finding backfill resolve_found
  resolve_async fid status note = do
    stored ← get_finding c tid fid
    finding ← backfill fid stored
    resolve_found fid status note finding

  -- behind the call: the missing thread as a result, and the outcome of a success
  unfoldable pub emitted : String → Result Resolution × S → Result Resolution × S
  emitted status (ok (resolved (some f) n), s) =
      (ok (resolved (some f) n), gh.emit_finding_status_outcome f status s)
  emitted status (ok r, s) = (ok r, s)
  emitted status (thread_missing t, s) = (ok (gone t), s)
  emitted status (raised, s) = (raised, s)

  -- the returns in front of the call; `token` is empty where there is none
  unfoldable pub resolution_error : Fields → String → String → Option String
  unfolding is_terminal has_target
  resolution_error configurable token status =
      if not (is_terminal status)
      then some ("Invalid status: " ⧺ status)
      else if not (has_target configurable)
      then some "Missing repo or PR info in run config"
      else if not (nonempty token)
      then some "No GitHub token available"
      else none

  unfoldable pub checked : Option String → String → String → String → S → Result Resolution × S
  unfolding emitted resolve_async
  checked (some e) fid status note s = (ok (refused e), s)
  checked none fid status note s = emitted status (resolve_async fid status note s)

  unfoldable pub with_note :
      Fields → String → String → String → Option String → S → Result Resolution × S
  unfolding resolution_error checked is_terminal
  with_note configurable token fid status none = pure (
      refused (
        if is_terminal status
        then "Resolving or dismissing a finding requires a note with the message to post."
        else "Invalid status: " ⧺ status))
  with_note configurable token fid status (some note) =
      checked (resolution_error configurable token status) fid status note

  unfoldable pub resolve_finding_thread :
      Fields → String → String → Option String → String → S → Result Resolution × S
  unfolding with_note normalize_note
  resolve_finding_thread configurable token fid note status =
      with_note configurable token fid status (normalize_note note)
