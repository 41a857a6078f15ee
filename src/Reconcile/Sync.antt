-- ===== src/Reconcile/Sync.antt =====
-- The three syncs of one finding with one review thread, or with all of its threads.
use loupfeed_agents.Common.{
  String, Bool, true, false, ◌&&◌, ◌||◌, not, Option, none, some, List, [], ◌∷◌, ◌++◌, all, null,
  map, if◌then◌else◌, str_eq, mem_str,
}
use loupfeed_agents.Json.{
  Value, bool, int, str, list, dict, ℤ, eq_ℤ, Fields, get, put, truthy, is_int, is_str, has_text,
  text_or, eq_text, is_null, items_of,
}
use loupfeed_agents.Findings.Update.{coerce_surface}
use loupfeed_agents.Reconcile.Replies.{int_list, str_list}
use loupfeed_agents.Reconcile.Match.{Match}

unfoldable pub mem_int : ℤ → List ℤ → Bool
unfolding eq_ℤ
mem_int z [] = false
mem_int z (y ∷ ys) = eq_ℤ y z || mem_int z ys

abbrev pub int_items : List ℤ → Value
int_items zs = list (items_of (map (λ z. int z) zs))

abbrev pub str_items : List String → Value
str_items ss = list (items_of (map (λ s. str s) ss))

-- the finding under change, and `updated`
abbrev pub Synced : Type 0
Synced = Fields × Bool

-- the part of `_sync_publication_identity` on the comment
unfoldable pub sync_comment : Option ℤ → Synced → Synced
unfolding is_int get put int_list mem_int items_of
sync_comment none (f, updated) = (f, updated)
sync_comment (some z) (f, updated) =
    let fresh = not (is_int (get "github_review_comment_id" f)) in
    let f' = if fresh then put "github_review_comment_id" (int z) f else f in
    let ids = int_list (get "github_review_comment_ids" f') in
    if mem_int z ids
    then (f', updated || fresh)
    else (put "github_review_comment_ids" (int_items (ids ++ z ∷ [])) f', true)

-- the part on the thread
unfoldable pub sync_thread : Value → Synced → Synced
unfolding has_text get put str_list text_or items_of
sync_thread new_id (f, updated) =
    let fresh = not (has_text (get "github_review_thread_id" f)) && has_text new_id in
    let f' = if fresh then put "github_review_thread_id" new_id f else f in
    let ids = str_list (get "github_review_thread_ids" f') in
    if has_text new_id && not (mem_str (text_or new_id "") ids)
    then (put "github_review_thread_ids" (str_items (ids ++ text_or new_id "" ∷ [])) f', true)
    else (f', updated || fresh)

put_comment : Option ℤ → Fields → Fields
unfolding put
put_comment none surface = surface
put_comment (some z) surface = put "github_review_comment_id" (int z) surface

surfaced : Option ℤ → Value → Fields → Fields
unfolding put put_comment has_text is_null get eq_text
surfaced comment new_id surface =
    let with_comment = put_comment comment surface in
    let with_thread =
      if has_text new_id then put "github_review_thread_id" new_id with_comment else with_comment in
    if is_null (get "state" with_thread) || eq_text (get "state" with_thread) "not_surfaced"
    then put "state" (str "surfaced") with_thread
    else with_thread

-- the part on the surface record
unfoldable pub sync_surface : Option ℤ → Value → Synced → Synced
unfolding is_str get put coerce_surface text_or surfaced
sync_surface comment new_id (f, updated) =
    if is_str (get "id" f)
    then (
      put "surface" (dict (surfaced comment new_id (coerce_surface f (text_or (get "id" f) "")))) f,
      true,
    )
    else (f, updated)

-- `_sync_publication_identity`
unfoldable pub sync_publication_identity : Fields → Match → Synced
unfolding sync_comment sync_thread sync_surface get
sync_publication_identity f (thread, comment) =
    sync_surface comment (get "id" thread)
      (sync_thread (get "id" thread) (sync_comment comment (f, false)))

-- `_is_terminal_thread`
unfoldable pub is_terminal_thread : Fields → Bool
unfolding truthy get
is_terminal_thread thread = truthy (get "is_resolved" thread) || truthy (get "is_outdated" thread)

-- a thread that GitHub has resolved, with its id
unfoldable pub is_resolved_thread : Match → Bool
unfolding truthy get has_text
is_resolved_thread (thread, comment) =
    truthy (get "is_resolved" thread) && has_text (get "id" thread)

-- the loop over the matches: `resolved_thread_ids` behind it, and whether one was new
unfoldable pub resolved_ids : List String → List Match → List String
unfolding is_resolved_thread text_or get
resolved_ids ids [] = ids
resolved_ids ids ((thread, comment) ∷ ms) =
    let fresh =
      is_resolved_thread (thread, comment) && not (mem_str (text_or (get "id" thread) "") ids) in
    resolved_ids (if fresh then ids ++ text_or (get "id" thread) "" ∷ [] else ids) ms

unfoldable pub eq_texts : List String → List String → Bool
eq_texts [] [] = true
eq_texts (s ∷ ss) (t ∷ ts) = str_eq s t && eq_texts ss ts
eq_texts [] (t ∷ ts) = false
eq_texts (s ∷ ss) [] = false

-- `all_resolved`
unfoldable pub all_resolved : List Match → Bool
unfolding is_resolved_thread
all_resolved ms = all is_resolved_thread ms

unfoldable pub sync_open : Synced → Synced
unfolding eq_text get put
sync_open (f, updated) =
    if eq_text (get "status" f) "open"
    then (put "status" (str "resolved") f, true)
    else (f, updated)

-- the resolved ids; the list has grown exactly when it has changed
unfoldable pub sync_resolved_ids : List Match → Synced → Synced
unfolding str_list get put resolved_ids eq_texts items_of
sync_resolved_ids ms (f, updated) =
    let known = str_list (get "github_resolved_thread_ids" f) in
    let ids = resolved_ids known ms in
    if eq_texts ids known
    then (f, updated)
    else (put "github_resolved_thread_ids" (str_items ids) f, true)

unfoldable pub sync_resolved : List Match → Synced → Synced
unfolding all_resolved truthy get put
sync_resolved ms (f, updated) =
    if all_resolved ms && not (truthy (get "github_thread_resolved" f))
    then (put "github_thread_resolved" (bool true) f, true)
    else (f, updated)

unfoldable pub sync_state : List Match → Synced → Synced
unfolding is_str get put coerce_surface text_or all_resolved
sync_state ms (f, updated) =
    if is_str (get "id" f)
    then (
      put "surface"
          (dict (
            put "state" (str (if all_resolved ms then "resolved" else "resolve_pending"))
              (coerce_surface f (text_or (get "id" f) ""))))
          f,
      true,
    )
    else (f, updated)

-- `_sync_thread_status`
unfoldable pub sync_thread_status : Fields → List Match → Synced
unfolding is_terminal_thread sync_open sync_resolved_ids sync_resolved sync_state
sync_thread_status f ms =
    if null ms || not (all (λ (m : Match). is_terminal_thread m.0) ms)
    then (f, false)
    else sync_state ms (sync_resolved ms (sync_resolved_ids ms (sync_open (f, false))))
