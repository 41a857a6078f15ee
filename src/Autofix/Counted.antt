-- ===== src/Autofix/Counted.antt =====
-- The counts of a sweep, and the conflict that is flagged once.
use loupfeed_agents.Common.{
  ℕ, ◌+◌, ◌≤◌, String, ◌≡◌, refl, Bool, true, false, Option, none, some, List, [], ◌∷◌, length,
  if◌then◌else◌, nonempty, str_eq, eq_refl, arith, Bool-cases, inl, inr,
}
use loupfeed_agents.Json.{Value, ℤ, str, Fields, field, end, get, update, eq_text, get-put_self}
use loupfeed_agents.Autofix.Ports.{Ports, Effect, Flow, returned, next}
use loupfeed_agents.Autofix.Handler.{handle_ci_failure, dispatch_or_queue}
use loupfeed_agents.Autofix.Attempts.{apply_effects}
use loupfeed_agents.Autofix.Sweep.{
  SweepPorts, Counts, no_counts, OpenPr, counted, count_flow, sweep_pr, sweep_thread, sweep_from,
  sweep_open_prs, open_pr_of, flag_on_thread, ci_failure,
}

abbrev pub acted : Counts → ℕ
acted c = c.dispatched + c.queued + c.conflicts

-- From `c` to `c'` at most one pull request more was acted on, and as many were scanned.
abbrev Acts : Counts → Counts → Type 0
Acts c c' = (acted c' ≤ acted c + 1) × (c'.scanned ≡ c.scanned)

counted-Acts : (status : String) (c : Counts) → Acts c (counted status c)
unfolding counted
counted-Acts status c = elim (Bool-cases (str_eq status "dispatched")) [
  | inl h ↦ rw h (omega arith, refl)
  | inr h ↦ elim (Bool-cases (str_eq status "queued")) [
    | inl k ↦ rw h (rw k (omega arith, refl))
    | inr k ↦ rw h (rw k (omega arith, refl))
  ]
]

count_flow-Acts : (m : Flow (Unit {0})) (c : Counts) → Acts c (count_flow m c).0
unfolding count_flow
count_flow-Acts (returned status fx) c = counted-Acts status c
count_flow-Acts (next u) c = (omega arith, refl)

branch-Acts :
    (b : Bool) (c : Counts) (x y : Counts × List Effect)
    → Acts c x.0
    → Acts c y.0
    → Acts c (if b then x else y).0
branch-Acts true c x y hx hy = hx
branch-Acts false c x y hx hy = hy

sweep_pr-Acts :
    (sp : SweepPorts) (token : String) (p : OpenPr) (o : Option Fields) (c : Counts)
    → Acts c (sweep_pr sp token p o c).0
sweep_pr-Acts sp token p none c = unfold sweep_pr in (omega arith, refl)
sweep_pr-Acts sp token p (some end) c = unfold sweep_pr in (omega arith, refl)
sweep_pr-Acts sp token p (some (field k v d)) c =
    unfold sweep_pr in
    branch-Acts (eq_text (get "mergeable_state" (field k v d)) "dirty") c _ _ (omega arith, refl)
      (count_flow-Acts (handle_ci_failure sp.ports (ci_failure p (field k v d) token)) c)

-- The turn for a thread keeps the acts below the scans.
sweep_thread-acted :
    (sp : SweepPorts) (token : String) (o : Option OpenPr) (c : Counts)
    → acted c ≤ c.scanned
    → (acted (sweep_thread sp token o c).0 ≤ (sweep_thread sp token o c).0.scanned)
      × ((sweep_thread sp token o c).0.scanned ≤ c.scanned + 1)
sweep_thread-acted sp token none c h = unfold sweep_thread in (h, omega arith)
sweep_thread-acted sp token (some p) c h =
    let c' : Counts = record c { scanned = c.scanned + 1 } in
    let acts = sweep_pr-Acts sp token p (sp.fetch_pr p.owner p.name p.pr_number token) c' in
    unfold sweep_thread in (omega (arith, acts.0, acts.1, h), omega (arith, acts.1))

sweep_from-acted :
    (sp : ℕ → SweepPorts) (n : ℕ) (token : String) (threads : List Value) (c : Counts)
    → acted c ≤ c.scanned
    → (acted (sweep_from sp n token threads c).0 ≤ (sweep_from sp n token threads c).0.scanned)
      × ((sweep_from sp n token threads c).0.scanned ≤ c.scanned + length threads)
unfolding sweep_from
sweep_from-acted sp n token [] c h = (h, omega arith)
sweep_from-acted sp n token (t ∷ ts) c h =
    let one = sweep_thread-acted (sp n) token (open_pr_of t) c h in
    let rest =
      sweep_from-acted sp (n + 1) token ts (sweep_thread (sp n) token (open_pr_of t) c).0 one.0 in
    (rest.0, omega (arith, rest.1, one.1))

-- Whatever the services answer at each turn, a sweep scans no more pull requests than it was given
-- threads, and acts on no more than it has scanned, each at most once.
pub sweep_open_prs-acted :
    (sp : ℕ → SweepPorts) (token : String) (threads : List Value)
    → (acted (sweep_open_prs sp token (some threads)).0
        ≤ (sweep_open_prs sp token (some threads)).0.scanned)
      × ((sweep_open_prs sp token (some threads)).0.scanned ≤ length threads)
unfolding sweep_open_prs
sweep_open_prs-acted sp token threads = elim (Bool-cases (nonempty token)) [
  | inl h ↦
      let all = sweep_from-acted sp 0 token threads no_counts (omega arith) in
      rw h (all.0, omega (arith, all.1))
  | inr h ↦ rw h (omega arith, omega arith)
]

-- The effects of a flag, at the thread that it was for.
flag_dispatched :
    (ports : Ports) (owner repo : String) (n : ℤ) (url head_sha tid : String) (metadata m : Fields)
    → eq_text (get "autofix_conflict_head" metadata) head_sha ≡ false
    → apply_effects true tid m
        (flag_on_thread ports owner repo n url head_sha (some (tid, metadata)))
      ≡ update m (field "autofix_conflict_head" (str head_sha) end)
unfolding flag_on_thread dispatch_or_queue
flag_dispatched ports owner repo n url head_sha tid metadata m h =
    elim (Bool-cases (ports.is_thread_active tid)) [
      | inl a ↦ rw (h, a, eq_refl)
      | inr a ↦ rw (h, a, eq_refl)
    ]

flag_quiet :
    (ports : Ports) (owner repo : String) (n : ℤ) (url head_sha tid : String) (metadata : Fields)
    → eq_text (get "autofix_conflict_head" metadata) head_sha ≡ true
    → flag_on_thread ports owner repo n url head_sha (some (tid, metadata)) ≡ []
unfolding flag_on_thread
flag_quiet ports owner repo n url head_sha tid metadata h = rw h

-- A conflict that was flagged at a head commit is not flagged again at that commit, where the update takes
-- effect.
pub flag_on_thread-flag_on_thread :
    (ports : Ports) (owner repo : String) (n : ℤ) (url head_sha tid : String) (metadata : Fields)
    → flag_on_thread ports owner repo n url head_sha (
        some (
          tid,
          apply_effects true tid metadata
              (flag_on_thread ports owner repo n url head_sha (some (tid, metadata))),
        ))
      ≡ []
flag_on_thread-flag_on_thread ports owner repo n url head_sha tid metadata =
    elim (Bool-cases (eq_text (get "autofix_conflict_head" metadata) head_sha)) [
      | inl h ↦
          rw (flag_quiet ports owner repo n url head_sha tid metadata h)
            (flag_quiet ports owner repo n url head_sha tid metadata h)
      | inr h ↦ rw (flag_dispatched ports owner repo n url head_sha tid metadata metadata h) (
          flag_quiet ports owner repo n url head_sha tid
            (update metadata (field "autofix_conflict_head" (str head_sha) end))
            (unfold update in rw get-put_self (unfold eq_text in eq_refl head_sha)))
    ]
