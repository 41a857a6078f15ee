-- ===== src/Publish/Threads.antt =====
-- The threads of the comments that were posted: `_missing_comment_ids_for_published_findings` and
-- `_store_thread_ids_on_findings` of agent/tools/publish_review.py.
use loupfeed_agents.Common.{
  String, Bool, true, false, ◌&&◌, not, Option, none, some, List, [], ◌∷◌, ◌++◌, any, null,
  if◌then◌else◌, nonempty, mem_str, str_eq,
}
use loupfeed_agents.Json.{
  Value, str, dict, ℤ, eq_ℤ, num_of, as_str, as_dict, as_list, Fields, get, put, is_int, is_str,
  in_texts,
}
use loupfeed_agents.Findings.Client.{Client}
use loupfeed_agents.Findings.Mutate.{Result, ◌>>=◌, pure, list_findings}
use loupfeed_agents.Findings.Thread.{text_of}
use loupfeed_agents.Findings.Update.{coerce_surface}
use loupfeed_agents.Reconcile.Match.{assoc_get, assoc_put}
use loupfeed_agents.Reconcile.Sync.{Synced, str_items}
use loupfeed_agents.Resolve.Notes.{comment_ids_for_finding, thread_ids_for_finding}
use loupfeed_agents.Publish.Stamp.{finding_ids, stamp_all, store_changed}

-- `_missing_comment_ids_for_published_findings`
unfoldable pub missing_comment_ids : List Fields → List Fields → Bool
unfolding finding_ids in_texts get is_int
missing_comment_ids findings posted =
    any
      (λ f.
        in_texts (get "id" f) (finding_ids posted)
        && not (is_int (get "github_review_comment_id" f)))
      findings

-- the comments of each finding that has no thread, by its id
abbrev pub Wanted : Type 0
Wanted = List (String × List ℤ)

-- the thread of each comment
abbrev pub ThreadOf : Type 0
ThreadOf = List (ℤ × String)

want : Option String → Fields → Wanted → Wanted
unfolding comment_ids_for_finding thread_ids_for_finding
want none f d = d
want (some fid) f d =
    let ids = comment_ids_for_finding f in
    if not (null ids) && null (thread_ids_for_finding f) then assoc_put str_eq fid ids d else d

-- `comment_ids_by_finding_id`
unfoldable pub wanted : List Fields → Wanted → Wanted
unfolding want as_str get
wanted [] d = d
wanted (f ∷ fs) d = wanted fs (want (as_str (get "id" f)) f d)

note_comment : String → Option Fields → ThreadOf → ThreadOf
unfolding num_of get
note_comment t none d = d
note_comment t (some comment) d = elim (num_of (get "id" comment)) [
  | none ↦ d
  | some z ↦ assoc_put eq_ℤ z t d
]

note_comments : String → List Value → ThreadOf → ThreadOf
unfolding note_comment as_dict
note_comments t [] d = d
note_comments t (v ∷ vs) d = note_comments t vs (note_comment t (as_dict v) d)

-- `thread.get("comments") or []`
items : Value → List Value
unfolding as_list
items v = elim (as_list v) [ none ↦ [] | some l ↦ l ]

note_thread : Option String → Fields → ThreadOf → ThreadOf
unfolding note_comments items get
note_thread none thread d = d
note_thread (some t) thread d = note_comments t (items (get "comments" thread)) d

-- `thread_id_by_comment_id`
unfoldable pub thread_by_comment : List Fields → ThreadOf → ThreadOf
unfolding note_thread text_of get
thread_by_comment [] d = d
thread_by_comment (t ∷ ts) d = thread_by_comment ts (note_thread (text_of (get "id" t)) t d)

-- a finding with its thread ids, and whether it has changed
abbrev pub Attached : Type 0
Attached = Fields × List String × Bool

with_thread : String → String → Fields → List String → Attached
unfolding is_str get put coerce_surface
with_thread fid t f ids =
    let g =
      if is_str (get "github_review_thread_id" f)
      then f
      else put "github_review_thread_id" (str t) f in
    let all_ids = if mem_str t ids then ids else ids ++ t ∷ [] in
    let h = if mem_str t ids then g else put "github_review_thread_ids" (str_items all_ids) g in
    (
      put "surface"
          (dict (
            put "github_review_thread_id" (str t)
              (put "state" (str "surfaced") (coerce_surface h fid))))
          h,
      all_ids,
      true,
    )

attach_one : String → Option String → Attached → Attached
unfolding with_thread
attach_one fid none a = a
attach_one fid (some t) (f, ids, changed) =
    if nonempty t then with_thread fid t f ids else (f, ids, changed)

-- the loop over the comments of a finding
unfoldable pub attach_all : String → ThreadOf → List ℤ → Attached → Attached
unfolding attach_one eq_ℤ
attach_all fid threads [] a = a
attach_all fid threads (z ∷ zs) a =
    attach_all fid threads zs (attach_one fid (assoc_get eq_ℤ z threads) a)

comments_wanted : Wanted → String → List ℤ
comments_wanted d fid = elim (assoc_get str_eq fid d) [ none ↦ [] | some ids ↦ ids ]

attached : Wanted → ThreadOf → Option String → Fields → Synced
unfolding attach_all thread_ids_for_finding comments_wanted
attached d threads none f = (f, false)
attached d threads (some fid) f =
    let a = attach_all fid threads (comments_wanted d fid) (f, thread_ids_for_finding f, false) in
    (a.0, a.2)

-- the turn of the loop over the findings
unfoldable pub attach_threads : Wanted → ThreadOf → Fields → Synced
unfolding attached as_str get
attach_threads d threads f = attached d threads (as_str (get "id" f)) f

module _ {S : Type 0} (c : Client S) (tid : String)
    (fetch_pr_review_threads : S → Result (List Fields) × S) where
  -- `_store_thread_ids_on_findings`
  unfoldable pub store_thread_ids_on_findings : S → Result (Unit {0}) × S
  unfolding list_findings wanted thread_by_comment attach_threads stamp_all store_changed
  store_thread_ids_on_findings = do
    findings ← list_findings c tid
    if null (wanted findings []) then pure tt else (do
      threads ← fetch_pr_review_threads
      store_changed c tid
          (stamp_all (attach_threads (wanted findings []) (thread_by_comment threads [])) findings))
