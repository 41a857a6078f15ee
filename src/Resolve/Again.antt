-- ===== src/Resolve/Again.antt =====
-- A second resolution of a finding whose threads are all resolved calls GitHub no more.
use loupfeed_agents.Common.{
  String, ◌≡◌, refl, ap, ◌∙◌, Bool, true, false, ◌&&◌, not, Option, none, some, List, [], ◌∷◌, map,
  all, arith, nonempty, mem_str, ◌⧺◌, if◌then◌else◌, ◌==◌, &&-eq-true, str_eq, Bool-cases, inl, inr,
}
use loupfeed_agents.Json.{Value, str, Fields, as_str, as_list-list}
use loupfeed_agents.Findings.Client.{Client}
use loupfeed_agents.Findings.Mutate.{ok, then_run, pure}
use loupfeed_agents.Reconcile.Replies.{texts, str_list}
use loupfeed_agents.Reconcile.Sync.{str_items}
use loupfeed_agents.Resolve.Notes.{
  normalize_note, render_resolution_comment, headed, resolution_body, comment_ids_for_finding,
}
use loupfeed_agents.Resolve.GitHub.{GitHub}
use loupfeed_agents.Resolve.Loop.{Loop, resolve_one, resolve_all, head?, tail}
use loupfeed_agents.Resolve.Tool.{
  refused, all_in, loop_start, record_resolution, settle_loop, with_body, resolve_threads,
}
use loupfeed_agents.Resolve.Settled.{settled, settled_lem}

texts-map : (ss : List String) → all nonempty ss ≡ true → texts (map (λ s. str s) ss) ≡ ss
unfolding texts as_str
texts-map [] h = refl
texts-map (s ∷ ss) h =
    let both = &&-eq-true (nonempty s) (all nonempty ss) h in
    rw both.0 (ap (λ (l : List String). s ∷ l) (texts-map ss both.1))

str_list-str_items : (ss : List String) → all nonempty ss ≡ true → str_list (str_items ss) ≡ ss
unfolding str_list
str_list-str_items ss h =
    ap (λ (o : Option (List Value)). elim o [ none ↦ [] | some l ↦ texts l ])
      (as_list-list (map (λ s. str s) ss))
    ∙ texts-map ss h

module _ {S : Type 0} (gh : GitHub S) where
  resolve_one-known :
      (body t : String) (z : Option _) (l : Loop) (s : S)
      → mem_str t l.resolved ≡ true
      → resolve_one gh body t z l s ≡ (ok l, s)
  unfolding resolve_one
  resolve_one-known body t z l s h = rw h refl

  -- the loop over threads that are known as resolved makes no call
  resolve_all-known :
      (body : String) (ids : List String) (zs : List _) (l : Loop) (s : S)
      → all_in ids l.resolved ≡ true
      → resolve_all gh body ids zs l s ≡ (ok l, s)
  unfolding resolve_all all_in
  resolve_all-known body [] zs l s h = refl
  resolve_all-known body (t ∷ ts) zs l s h =
      let both = &&-eq-true (mem_str t l.resolved) (all (λ i. mem_str i l.resolved) ts) h in
      ap (then_run (λ (k : Loop). resolve_all gh body ts (tail zs) k))
        (resolve_one-known body t (head? zs) l s both.0)
      ∙ resolve_all-known body ts (tail zs) l s both.1

headed-some : (status body : String) → (b : String) × (headed status (some body) ≡ some b)
headed-some status body = elim (Bool-cases (str_eq status "resolved")) [
  | inl e ↦ ("✅ **Resolved**: " ⧺ body, unfold headed in rw e refl)
  | inr e ↦ ("❌ **Dismissed**: " ⧺ body, unfold headed in rw e refl)
]

resolution_body-some :
    (f : Fields) (note kept : String)
    → normalize_note (some note) ≡ some kept
    → resolution_body f (some note) ≡ some kept
unfolding resolution_body
resolution_body-some f note kept h = ground (arith, h)

render-some :
    (f : Fields) (status note kept : String)
    → normalize_note (some note) ≡ some kept
    → (body : String) × (render_resolution_comment f status (some note) ≡ some body)
render-some f status note kept h =
    let b = headed-some status kept in
    (
      b.0,
      unfold render_resolution_comment in
          ap (headed status) (resolution_body-some f note kept h) ∙ b.1,
    )

module _ {S : Type 0} (c : Client S) (tid : String) (gh : GitHub S)
    (json_loads : String → Option Value) where
  settle_loop-known :
      (fid status note : String) (ids : List String) (l : Loop) (s : S)
      → all_in ids l.resolved ≡ true
      → settle_loop c tid gh json_loads fid status note ids l s
        ≡ record_resolution c tid gh json_loads fid status note ids l s
  unfolding settle_loop
  settle_loop-known fid status note ids l s h =
      ap
        (λ (b : Bool).
          (if l.count == 0 && not b
              then pure (refused "GitHub did not resolve the review thread")
              else record_resolution c tid gh json_loads fid status note ids l)
            s)
        h
      ∙ never (l.count == 0)
    where
      never :
          (b : Bool)
          → (if b && false
                then pure (refused "GitHub did not resolve the review thread")
                else record_resolution c tid gh json_loads fid status note ids l)
              s
            ≡ record_resolution c tid gh json_loads fid status note ids l s
      never true = refl
      never false = refl

  with_body-known :
      (f : Fields) (fid status note : String) (ids : List String) (o : Option String)
      (body : String) (s : S)
      → o ≡ some body
      → all_in ids (loop_start f).resolved ≡ true
      → with_body c tid gh json_loads f fid status note ids o s
        ≡ record_resolution c tid gh json_loads fid status note ids (loop_start f) s
  unfolding with_body
  with_body-known f fid status note ids o body s e h =
      ap (λ (x : Option String). with_body c tid gh json_loads f fid status note ids x s) e
      ∙ ap (then_run (λ (l : Loop). settle_loop c tid gh json_loads fid status note ids l))
          (resolve_all-known gh body ids (comment_ids_for_finding f) (loop_start f) s h)
      ∙ settle_loop-known fid status note ids (loop_start f) s h

  -- A finding that was settled with all of its threads resolved, whose ids are texts that are not
  -- empty: a second resolution with a note that is not blank makes no call of GitHub for them; it
  -- only writes the finding.
  pub resolve_threads-settled :
      (fid status note status' note' kept : String) (ids : List String) (l : Loop) (f : Fields)
      (s : S)
      → all nonempty l.resolved ≡ true
      → all_in ids l.resolved ≡ true
      → normalize_note (some note') ≡ some kept
      → resolve_threads c tid gh json_loads
          (settled fid status note ids l f)
          fid
          status'
          note'
          ids
          s
        ≡ record_resolution c tid gh json_loads fid status' note' ids
            (loop_start (settled fid status note ids l f))
            s
  unfolding resolve_threads
  resolve_threads-settled fid status note status' note' kept ids l f s texts known blank =
      let g = settled fid status note ids l f in
      let back : (loop_start g).resolved ≡ l.resolved =
        unfold loop_start in
        ap str_list (settled_lem fid status note ids l f).2 ∙ str_list-str_items l.resolved texts in
      let r = render-some g status' note' kept blank in
      with_body-known g fid status' note' ids (render_resolution_comment g status' (some note')) r.0
        s r.1 (ap (all_in ids) back ∙ known)
