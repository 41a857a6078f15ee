-- ===== src/Resolve/Stored.antt =====
-- What a success of `resolve_finding_thread` has stored.
use loupfeed_agents.Common.{
  ℕ, String, ◌≡◌, refl, ap, ◌∙◌, Bool, true, false, not, Option, none, some, List, null, arith,
  if◌then◌else◌, inl, inr, ◌⊎◌, ◌==◌, ◌&&◌, nonempty,
}
use loupfeed_agents.Json.{Value, str, Fields, get}
use loupfeed_agents.Findings.Client.{Client, IsMerging}
use loupfeed_agents.Findings.Mutate.{Result, ok, thread_missing, raised, pure}
use loupfeed_agents.Findings.Thread.{get_finding}
use loupfeed_agents.Findings.Found.{then_run-ok, get_finding-fetch}
use loupfeed_agents.Resolve.Loop.{Loop, collect_thread_ids, resolve_all}
use loupfeed_agents.Resolve.Notes.{
  comment_ids_for_finding, thread_ids_for_finding, render_resolution_comment, has_target,
  normalize_note,
}
use loupfeed_agents.Resolve.GitHub.{GitHub, EmitsApart}
use loupfeed_agents.Resolve.Tool.{
  Resolution, refused, resolved, all_in, record_resolution, settle_loop, with_body, loop_start,
  resolve_threads, resolve_found, backfill, resolve_async, emitted, gone, resolution_error,
  is_terminal, checked, with_note, resolve_finding_thread,
}
use loupfeed_agents.Resolve.Settled.{record_resolution-settled, settled_lem}

-- a finding as the tools leave it
pub record IsSettled {S : Type 0} (c : Client S) (tid fid status note : String) (f' : Fields)
    (s' : S) : Type 0 where
  pub status_set : get "status" f' ≡ str status
  pub note_set : get "resolution_note" f' ≡ str note
  pub stored : get_finding c tid fid s' ≡ (ok (some f'), s')

-- what a resolution leaves, with a finding or without
pub record Left {S : Type 0} (c : Client S) (tid fid status note : String) (o : Option Fields)
    (s' : S) : Type 0 where
  pub seen : get_finding c tid fid s' ≡ (ok o, s')
  pub settles :
      (f' : Fields)
      → o ≡ some f'
      → (get "status" f' ≡ str status) × (get "resolution_note" f' ≡ str note)

pub branch-ok :
    {S A : Type 0} (b : Bool) (m n : S → Result A × S) (s : S) (r : Result A × S)
    → (if b then m else n) s ≡ r
    → ((b ≡ true) × (m s ≡ r)) ⊎ ((b ≡ false) × (n s ≡ r))
branch-ok true m n s r h = inl (refl, h)
branch-ok false m n s r h = inr (refl, h)

module _ {S : Type 0} (c : Client S) (tid : String) (merging : IsMerging c) (gh : GitHub S)
    (json_loads : String → Option Value) (fid status note : String) (o : Option Fields) (n : ℕ)
    (s' : S) where
  abbrev Returned : Result Resolution × S → Type 0
  Returned r = r ≡ (ok (resolved o n), s')

  settle_loop-Left :
      (ids : List String) (l : Loop) (s : S)
      → Returned (settle_loop c tid gh json_loads fid status note ids l s)
      → Left c tid fid status note o s'
  unfolding settle_loop
  settle_loop-Left ids l s run =
      elim (branch-ok (l.count == 0 && not (all_in ids l.resolved))
        (pure (refused "GitHub did not resolve the review thread"))
        (record_resolution c tid gh json_loads fid status note ids l) s (ok (resolved o n), s')
        run) [
          | inl p ↦ absurd (cc p.1)
          | inr p ↦
              let r =
                record_resolution-settled c tid merging gh json_loads fid status note ids l s s' o n
                  p.1 in
              record {
                seen = r.0;
                settles = λ f' is.
                    let f = r.2 f' is in
                    let facts = settled_lem fid status note ids l f.0 in
                    (ap (get "status") f.1 ∙ facts.0, ap (get "resolution_note") f.1 ∙ facts.1);
              }
        ]

  with_body-Left :
      (finding : Fields) (ids : List String) (body : Option String) (s : S)
      → Returned (with_body c tid gh json_loads finding fid status note ids body s)
      → Left c tid fid status note o s'
  unfolding with_body
  with_body-Left finding ids none s run = absurd (cc run)
  with_body-Left finding ids (some body) s run =
      let l =
        then_run-ok
          (resolve_all gh body ids (comment_ids_for_finding finding) (loop_start finding) s) _
          (resolved o n) s' run in
      settle_loop-Left ids l.0 l.1 l.3

  resolve_found-Left :
      (finding : Option Fields) (s : S)
      → Returned (resolve_found c tid gh json_loads fid status note finding s)
      → Left c tid fid status note o s'
  unfolding resolve_found resolve_threads
  resolve_found-Left none s run = absurd (cc run)
  resolve_found-Left (some finding) s run =
      let ids =
        then_run-ok
          (collect_thread_ids gh (comment_ids_for_finding finding) (thread_ids_for_finding finding)
            s)
          _ (resolved o n) s' run in
      elim (branch-ok (null ids.0) (pure (refused "Could not resolve GitHub review thread id"))
        (resolve_threads c tid gh json_loads finding fid status note ids.0) ids.1
        (ok (resolved o n), s') ids.3) [
          | inl p ↦ absurd (cc p.1)
          | inr p ↦
              with_body-Left finding ids.0 (render_resolution_comment finding status (some note))
                ids.1 p.1
        ]

  pub resolve_async-Left :
      (s : S)
      → Returned (resolve_async c tid gh json_loads fid status note s)
      → Left c tid fid status note o s'
  unfolding resolve_async
  resolve_async-Left s run =
      let stored = then_run-ok (get_finding c tid fid s) _ (resolved o n) s' run in
      let finding =
        then_run-ok (backfill c tid gh json_loads fid stored.0 stored.1) _ (resolved o n) s'
          stored.3 in
      resolve_found-Left finding.0 finding.1 finding.3

module _ {S : Type 0} (c : Client S) (tid : String) (merging : IsMerging c) (gh : GitHub S)
    (apart : EmitsApart c tid gh) (json_loads : String → Option Value) where
  -- what the checks in front of the call have passed
  abbrev pub Passed : Fields → String → String → Type 0
  Passed configurable token status =
      (is_terminal status ≡ true) × (has_target configurable ≡ true) × (nonempty token ≡ true)

  resolution_error-Passed :
      (configurable : Fields) (token status : String)
      → resolution_error c tid gh json_loads configurable token status ≡ none
      → Passed configurable token status
  unfolding resolution_error
  resolution_error-Passed configurable token status h = ground (arith, h)

  -- behind the outcome the findings are read as before
  emitted-resolved :
      (fid status : String) (m : Result Resolution × S) (o : Option Fields) (n : ℕ) (s' : S)
      → emitted c tid gh json_loads status m ≡ (ok (resolved o n), s')
      → (t : S) × (m ≡ (ok (resolved o n), t)) × (c.fetch tid s' ≡ c.fetch tid t)
  unfolding emitted
  emitted-resolved fid status (ok (resolved (some f) k), t) o n s' run =
      let same : s' ≡ gh.emit_finding_status_outcome f status t = ground (arith, run) in
      (t, ground (arith, run), ap (c.fetch tid) same ∙ apart.same f status t)
  emitted-resolved fid status (ok (resolved none k), t) o n s' run =
      (t, ground (arith, run), ap (c.fetch tid) (ground (arith, run)))
  emitted-resolved fid status (ok (refused e), t) o n s' run = absurd (cc run)
  emitted-resolved fid status (ok (gone e), t) o n s' run = absurd (cc run)
  emitted-resolved fid status (thread_missing e, t) o n s' run = absurd (cc run)
  emitted-resolved fid status (raised, t) o n s' run = absurd (cc run)

  checked-Left :
      (error : Option String) (fid status note : String) (o : Option Fields) (n : ℕ) (s s' : S)
      → checked c tid gh json_loads error fid status note s ≡ (ok (resolved o n), s')
      → (error ≡ none) × Left c tid fid status note o s'
  unfolding checked
  checked-Left (some e) fid status note o n s s' run = absurd (cc run)
  checked-Left none fid status note o n s s' run =
      let call =
        emitted-resolved fid status (resolve_async c tid gh json_loads fid status note s) o n s'
          run in
      let before =
        resolve_async-Left c tid merging gh json_loads fid status note o n call.0 s call.1 in
      (
        refl,
        record {
          seen = get_finding-fetch c tid fid o call.0 s' call.2 before.seen;
          settles = before.settles;
        },
      )

  with_note-Left :
      (configurable : Fields) (token fid status : String) (note : Option String) (o : Option Fields)
      (n : ℕ) (s s' : S)
      → with_note c tid gh json_loads configurable token fid status note s ≡ (ok (resolved o n), s')
      → (kept : String) × (note ≡ some kept)
        × Passed configurable token status
        × Left c tid fid status kept o s'
  unfolding with_note
  with_note-Left configurable token fid status none o n s s' run = absurd (cc run)
  with_note-Left configurable token fid status (some note) o n s s' run =
      let r =
        checked-Left (resolution_error c tid gh json_loads configurable token status) fid status
          note o n s s' run in
      (note, refl, resolution_error-Passed configurable token status r.0, r.1)

  pub resolve_finding_thread-Left :
      (configurable : Fields) (token fid : String) (note : Option String) (status : String)
      (o : Option Fields) (n : ℕ) (s s' : S)
      → resolve_finding_thread c tid gh json_loads configurable token fid note status s
        ≡ (ok (resolved o n), s')
      → (kept : String) × (normalize_note note ≡ some kept)
        × Passed configurable token status
        × Left c tid fid status kept o s'
  unfolding resolve_finding_thread
  resolve_finding_thread-Left configurable token fid note status o n s s' run =
      with_note-Left configurable token fid status (normalize_note note) o n s s' run

  -- With a client that merges, and outcomes that are kept apart from the findings: a resolution that
  -- succeeds with a finding was asked for with a terminal status, a note that is not blank, a target
  -- and a token; the finding has that status and the stripped note, and the store holds it so.
  pub resolve_finding_thread-IsSettled :
      (configurable : Fields) (token fid : String) (note : Option String) (status : String)
      (f' : Fields) (n : ℕ) (s s' : S)
      → resolve_finding_thread c tid gh json_loads configurable token fid note status s
        ≡ (ok (resolved (some f') n), s')
      → (kept : String) × (normalize_note note ≡ some kept)
        × Passed configurable token status
        × IsSettled c tid fid status kept f' s'
  resolve_finding_thread-IsSettled configurable token fid note status f' n s s' run =
      let r = resolve_finding_thread-Left configurable token fid note status (some f') n s s' run in
      let facts = Left.settles r.3 f' refl in
      (r.0, r.1, r.2, record { status_set = facts.0; note_set = facts.1; stored = Left.seen r.3 })
