-- ===== src/Resolve/Update.antt =====
-- `update_finding`: the checks, the updates, and the delegation of a resolution to the review thread.
use loupfeed_agents.Common.{
  String, Bool, true, false, ◌&&◌, not, Option, none, some, List, [], ◌∷◌, if◌then◌else◌, mem_str,
  nonempty, str_eq, ◌⧺◌,
}
use loupfeed_agents.Json.{Value, null, str, Fields, end, put, del, truthy, dict}
use loupfeed_agents.Findings.Client.{Client}
use loupfeed_agents.Findings.Titles.{
  clip_suggestion, normalize_finding_title, default_finding_title,
}
use loupfeed_agents.Findings.Mutate.{Result, ok, thread_missing, raised, ◌>>=◌, pure, list_findings}
use loupfeed_agents.Findings.Update.{update_finding_fields}
use loupfeed_agents.Findings.Thread.{first_with, resolve_review_head_sha}
use loupfeed_agents.Resolve.Notes.{normalize_note, has_target, has_published_github_surface}
use loupfeed_agents.Resolve.GitHub.{GitHub}
use loupfeed_agents.Resolve.Tool.{
  Resolution, resolved, refused, gone, is_terminal, resolve_finding_thread,
}

-- the arguments of the tool
pub record UpdateArgs : Type 0 where
  pub finding_id : String
  pub new_status : Option String
  pub severity : Option String
  pub confidence : Option String
  pub title : Option String
  pub description : Option String
  pub suggestion : Option String
  pub note : Option String

-- the dict that the tool returns: an error, a thread of the store that is missing, a resolution that
-- failed, or the finding, with whether a suggestion was dropped
pub data Update : Type 0 where
  rejected : String → Update
  suggestion_rejected : Update
  missing_thread : String → Update
  unresolved : Resolution → Update
  updated : Option Fields → Bool → Update

-- `v is not None and v not in {…}`
unfoldable pub outside : List String → Option String → Bool
outside allowed none = false
outside allowed (some v) = not (mem_str v allowed)

-- `status in {"resolved", "dismissed"}`
unfoldable pub resolving : Option String → Bool
unfolding is_terminal
resolving none = false
resolving (some status) = is_terminal status

abbrev pub text_in : Option String → String
text_in none = ""
text_in (some s) = s

unfoldable pub blank_title : Option String → Bool
unfolding normalize_finding_title
blank_title none = false
blank_title (some t) = str_eq (normalize_finding_title (some t) "") default_finding_title

unfoldable pub is_none : Option String → Bool
is_none none = true
is_none (some s) = false

-- the error of the first check that fails
unfoldable pub update_error : UpdateArgs → Option String
unfolding outside resolving normalize_note blank_title is_none
update_error a =
    if outside ("open" ∷ "resolved" ∷ "dismissed" ∷ []) a.new_status
    then some ("Invalid status: " ⧺ text_in a.new_status)
    else if outside ("low" ∷ "medium" ∷ "high" ∷ "critical" ∷ []) a.severity
    then some ("Invalid severity: " ⧺ text_in a.severity)
    else if outside ("low" ∷ "medium" ∷ "high" ∷ []) a.confidence
    then some ("Invalid confidence: " ⧺ text_in a.confidence)
    else if resolving a.new_status && is_none (normalize_note a.note)
    then some "Resolving or dismissing a finding requires a note with the message to post."
    else if blank_title a.title
    then some "title must be a non-empty generated headline"
    else none

unfoldable pub set_some : String → Option String → Fields → Fields
unfolding put
set_some k none d = d
set_some k (some s) d = put k (str s) d

unfoldable pub title_of : Option String → Option String
unfolding normalize_finding_title
title_of none = none
title_of (some t) = some (normalize_finding_title (some t) "")

-- the suggestion: cleared by an empty text, and left as it was by one that is too long
unfoldable pub set_suggestion : Option String → Fields → Fields
unfolding put clip_suggestion set_some
set_suggestion none d = d
set_suggestion (some s) d =
    if nonempty s
    then set_some "suggestion" (clip_suggestion (some s)).0 d
    else put "suggestion" null d

unfoldable pub set_note : Option String → Option String → Fields → Fields
unfolding put resolving
set_note status none d = d
set_note status (some note) d =
    let noted = put "last_update_note" (str note) d in
    if resolving status then put "resolution_note" (str note) noted else noted

-- `updates` in front of the read of the head
unfoldable pub updates_of : UpdateArgs → Fields
unfolding set_some title_of set_suggestion set_note normalize_note
updates_of a = set_note a.new_status (normalize_note a.note) (
    set_suggestion a.suggestion (
      set_some "description" a.description (
        set_some "title" (title_of a.title) (
          set_some "confidence" a.confidence
            (set_some "severity" a.severity (set_some "status" a.new_status end))))))

unfoldable pub suggestion_dropped : UpdateArgs → Bool
unfolding clip_suggestion
suggestion_dropped a = (clip_suggestion a.suggestion).1

-- the updates that are left to a resolution that was delegated
unfoldable pub without_resolution : Fields → Fields
unfolding del
without_resolution updates = del "resolution_note" (del "last_update_note" (del "status" updates))

-- the resolution goes through the review thread
unfoldable pub delegates : Fields → Option String → Fields → Bool
unfolding resolving has_target has_published_github_surface
delegates configurable status finding =
    resolving status && has_target configurable && has_published_github_surface finding

unfoldable pub is_open : Option String → Bool
is_open none = false
is_open (some s) = str_eq s "open"

module _ {S : Type 0} (c : Client S) (tid : String) (gh : GitHub S)
    (json_loads : String → Option Value) where
  -- `last_confirmed_sha`, where the finding is opened again
  unfoldable pub confirmed : Fields → Option String → Fields → S → Result Fields × S
  unfolding is_open resolve_review_head_sha put
  confirmed configurable status updates =
      if is_open status
      then (do
        head ← resolve_review_head_sha c tid configurable
        pure (if nonempty head then put "last_confirmed_sha" (str head) updates else updates))
      else pure updates

  -- the outcome of an update that was not delegated
  unfoldable pub outcome : Option String → Bool → Fields → S → S
  unfolding resolving
  outcome none delegated f s = s
  outcome (some status) delegated f s =
      if is_terminal status && not delegated then gh.emit_finding_status_outcome f status s else s

  unfoldable pub wrote : UpdateArgs → Bool → Option Fields → S → Result Update × S
  unfolding outcome suggestion_dropped
  wrote a delegated none s = (ok (rejected ("No finding found with id " ⧺ a.finding_id)), s)
  wrote a delegated (some f) s =
      (ok (updated (some f) (suggestion_dropped a)), outcome a.new_status delegated f s)

  unfoldable pub write_updates : UpdateArgs → Bool → Fields → S → Result Update × S
  unfolding update_finding_fields wrote
  write_updates a delegated updates = do
    f ← update_finding_fields c tid a.finding_id updates
    wrote a delegated f

  -- behind the delegated resolution
  unfoldable pub after_resolution : UpdateArgs → Fields → Resolution → S → Result Update × S
  unfolding without_resolution truthy suggestion_dropped write_updates
  after_resolution a updates (refused e) = pure (unresolved (refused e))
  after_resolution a updates (gone t) = pure (unresolved (gone t))
  after_resolution a updates (resolved f n) =
      if truthy (dict (without_resolution updates))
      then write_updates a true (without_resolution updates)
      else pure (updated f (suggestion_dropped a))

  unfoldable pub delegated : Fields → String → UpdateArgs → Fields → S → Result Update × S
  unfolding resolve_finding_thread after_resolution normalize_note
  delegated configurable token a updates = do
    r ←
        resolve_finding_thread c tid gh json_loads configurable token a.finding_id
          (normalize_note a.note) (text_in a.new_status)
    after_resolution a updates r

  -- behind the look for the finding
  unfoldable pub change :
      Fields → String → UpdateArgs → Fields → Option Fields → S → Result Update × S
  unfolding delegates delegated write_updates
  change configurable token a updates none =
      pure (rejected ("No finding found with id " ⧺ a.finding_id))
  change configurable token a updates (some finding) =
      if delegates configurable a.new_status finding
      then delegated configurable token a updates
      else write_updates a false updates

  -- behind the updates
  unfoldable pub apply_updates : Fields → String → UpdateArgs → Fields → S → Result Update × S
  unfolding truthy suggestion_dropped list_findings first_with change
  apply_updates configurable token a updates =
      if truthy (dict updates)
      then (do
        findings ← list_findings c tid
        change configurable token a updates (first_with a.finding_id findings))
      else pure (
          if suggestion_dropped a
          then suggestion_rejected
          else rejected "No fields provided to update")

  -- `except ReviewerThreadMissingError`
  abbrev pub caught : Result Update × S → Result Update × S
  caught (ok r, s) = (ok r, s)
  caught (thread_missing t, s) = (ok (missing_thread t), s)
  caught (raised, s) = (raised, s)

  unfoldable pub attempt : Fields → String → UpdateArgs → S → Result Update × S
  unfolding confirmed updates_of apply_updates
  attempt configurable token a = do
    updates ← confirmed configurable a.new_status (updates_of a)
    apply_updates configurable token a updates

  unfoldable pub unless : Option String → Fields → String → UpdateArgs → S → Result Update × S
  unfolding attempt
  unless (some e) configurable token a s = (ok (rejected e), s)
  unless none configurable token a s = caught (attempt configurable token a s)

  unfoldable pub update_finding : Fields → String → UpdateArgs → S → Result Update × S
  unfolding unless update_error
  update_finding configurable token a = unless (update_error a) configurable token a
