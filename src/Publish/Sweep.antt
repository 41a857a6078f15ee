-- ===== src/Publish/Sweep.antt =====
-- `_resolve_threads_for_resolved_findings` of agent/tools/publish_review.py: the threads of the
-- findings that are resolved or dismissed.
use loupfeed_agents.Common.{
  ℕ, ◌+◌, String, Bool, true, false, ◌||◌, not, Option, none, some, List, [], ◌∷◌, length, null,
  if◌then◌else◌, ◌==◌, mem_str,
}
use loupfeed_agents.Json.{bool, str, dict, ℤ, Fields, get, put, is_str, in_texts, text_or}
use loupfeed_agents.Findings.Client.{Client}
use loupfeed_agents.Findings.Mutate.{Result, ◌>>=◌, pure}
use loupfeed_agents.Findings.Update.{coerce_surface}
use loupfeed_agents.Reconcile.Sync.{int_items, str_items}
use loupfeed_agents.Resolve.GitHub.{GitHub}
use loupfeed_agents.Resolve.Loop.{Loop, collect_thread_ids, head?, tail, reply_once, noted_thread}
use loupfeed_agents.Resolve.Notes.{
  render_resolution_comment, comment_ids_for_finding, thread_ids_for_finding,
}
use loupfeed_agents.Resolve.Tool.{all_in, loop_start}
use loupfeed_agents.Publish.Stamp.{store_changed}

-- the lists of a finding under the loop, and `mutated`
pub record Turn : Type 0 where
  pub loop : Loop
  pub mutated : Bool

-- behind a thread: a reply that was accepted and a resolution are changes
unfoldable pub turned : String → Bool → List ℤ → Turn → Turn
unfolding noted_thread
turned t resolved posted turn = record {
  loop = noted_thread t resolved posted turn.loop;
  mutated = resolved || (not (length posted == length turn.loop.posted) || turn.mutated);
}

-- `if github_thread_resolved`: every thread is among the resolved ones
unfoldable pub whole : String → Fields → Fields
unfolding put is_str get coerce_surface text_or
whole first f =
    let g = put "github_thread_resolved" (bool true) f in
    if is_str (get "id" g)
    then put "surface"
        (dict (
          put "github_review_thread_id" (str first)
            (put "state" (str "resolved") (coerce_surface g (text_or (get "id" g) "")))))
        g
    else g

-- what the loop leaves on the finding; the first of its threads stands apart
unfoldable pub swept : String → List String → Loop → Fields → Fields
unfolding put is_str get all_in whole
swept first ids l f =
    let with_resolved =
      if null l.resolved then f else put "github_resolved_thread_ids" (str_items l.resolved) f in
    let with_posted =
      if null l.posted
      then with_resolved
      else put "github_posted_resolution_comment_ids" (int_items l.posted) with_resolved in
    let with_ids = put "github_review_thread_ids" (str_items ids) with_posted in
    let with_first =
      if is_str (get "github_review_thread_id" with_ids)
      then with_ids
      else put "github_review_thread_id" (str first) with_ids in
    if all_in ids l.resolved then whole first with_first else with_first

-- `status in {"resolved", "dismissed"}`
unfoldable pub is_settled : Fields → Bool
unfolding in_texts get
is_settled f = in_texts (get "status" f) ("resolved" ∷ "dismissed" ∷ [])

-- a finding behind its turn, the number of threads resolved, and whether it has changed
abbrev pub Swept : Type 0
Swept = Fields × ℕ × Bool

-- the findings behind the sweep, the number of threads resolved, and whether one has changed
abbrev pub SweptAll : Type 0
SweptAll = List Fields × ℕ × Bool

unfoldable pub add_swept : Swept → SweptAll → SweptAll
add_swept (f, n, changed) (fs, m, others) = (f ∷ fs, n + m, changed || others)

module _ {S : Type 0} (gh : GitHub S) where
  -- the reply, where there is a body for it
  unfoldable pub reply_with : Option String → Option ℤ → List ℤ → S → Result (List ℤ) × S
  unfolding reply_once
  reply_with none comment posted = pure posted
  reply_with (some body) comment posted = reply_once gh body comment posted

  unfoldable pub sweep_thread : Option String → String → Option ℤ → Turn → S → Result Turn × S
  unfolding reply_with turned
  sweep_thread body t comment turn = if mem_str t turn.loop.resolved then pure turn else (do
    posted ← reply_with body comment turn.loop.posted
    resolved ← gh.resolve_review_thread t
    pure (turned t resolved posted turn))

  unfoldable pub sweep_threads : Option String → List String → List ℤ → Turn → S → Result Turn × S
  unfolding sweep_thread
  sweep_threads body [] comments turn = pure turn
  sweep_threads body (t ∷ ts) comments turn = do
    turn' ← sweep_thread body t (head? comments) turn
    sweep_threads body ts (tail comments) turn'

  -- behind the threads of a finding
  unfoldable pub sweep_ids : Fields → List String → S → Result Swept × S
  unfolding sweep_threads render_resolution_comment text_or get comment_ids_for_finding loop_start
      swept
  sweep_ids f [] = pure (f, 0, false)
  sweep_ids f (t ∷ ts) = do
    turn ←
        sweep_threads (render_resolution_comment f (text_or (get "status" f) "") none) (t ∷ ts)
          (comment_ids_for_finding f) (record { loop = loop_start f; mutated = false })
    pure (swept t (t ∷ ts) turn.loop f, turn.loop.count, turn.mutated)

  -- the turn of the loop over the findings
  unfoldable pub sweep_finding : Fields → S → Result Swept × S
  unfolding is_settled collect_thread_ids comment_ids_for_finding thread_ids_for_finding sweep_ids
  sweep_finding f = if not (is_settled f) then pure (f, 0, false) else (do
    ids ← collect_thread_ids gh (comment_ids_for_finding f) (thread_ids_for_finding f)
    sweep_ids f ids)

  unfoldable pub sweep_all : List Fields → S → Result SweptAll × S
  unfolding sweep_finding add_swept
  sweep_all [] = pure ([], 0, false)
  sweep_all (f ∷ fs) = do one ← sweep_finding f; rest ← sweep_all fs; pure (add_swept one rest)

module _ {S : Type 0} (c : Client S) (tid : String) (gh : GitHub S) where
  -- `_resolve_threads_for_resolved_findings`
  unfoldable pub resolve_threads_for_resolved_findings : List Fields → S → Result ℕ × S
  unfolding sweep_all store_changed
  resolve_threads_for_resolved_findings findings = do
    all_of ← sweep_all gh findings
    stored ← store_changed c tid (all_of.0, all_of.2)
    pure all_of.1
