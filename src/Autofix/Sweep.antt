-- ===== src/Autofix/Sweep.antt =====
-- `sweep_open_prs` and `_flag_merge_conflict`: the poll of the agent's open pull requests.
use loupfeed_agents.Common.{
  ℕ, ◌+◌, String, ◌||◌, not, Option, none, some, List, [], ◌∷◌, ◌++◌, if◌then◌else◌, nonempty,
  str_eq,
}
use loupfeed_agents.Json.{Value, ℤ, str, num_of, Fields, field, end, get, as_dict, text_or, eq_text}
use loupfeed_agents.Autofix.Prompts.{show_ℤ}
use loupfeed_agents.Autofix.Ports.{
  Ports, Effect, update_thread, Flow, returned, next, find_agent_thread_for_pr,
}
use loupfeed_agents.Autofix.Handler.{
  CiFailure, inner_text, or_text, run_configurable, dispatch_or_queue, handle_ci_failure,
}
use loupfeed_agents.Common.{join}

-- what the sweep reads beside the ports of the handler
pub record SweepPorts : Type 0 where
  pub ports : Ports
  pub fetch_pr : String → String → ℤ → String → Option Fields

pub record Counts : Type 0 where
  pub scanned : ℕ
  pub dispatched : ℕ
  pub queued : ℕ
  pub conflicts : ℕ

abbrev pub no_counts : Counts
no_counts = record { scanned = 0; dispatched = 0; queued = 0; conflicts = 0 }

conflict_prompt : ℤ → String → String
unfolding show_ℤ
conflict_prompt pr_number pr_url = join "" (
    "The pull request you opened (#"
    ∷ show_ℤ pr_number
    ∷ ", "
    ∷ pr_url
    ∷ ") now has merge conflicts with its base branch. Rebase or merge the base branch into "
    ∷ "the PR branch, resolve the conflicts carefully, and push. If a "
    ∷ "conflict resolution is ambiguous, comment on the PR and ask before "
    ∷ "guessing. Never force-push over commits already on the remote."
    ∷ [])

-- the message about the conflict and its record, unless the head is the one recorded
unfoldable pub flag_on_thread :
    Ports → String → String → ℤ → String → String → Option (String × Fields) → List Effect
unfolding eq_text get dispatch_or_queue conflict_prompt run_configurable
flag_on_thread ports owner repo pr_number pr_url head_sha none = []
flag_on_thread ports owner repo pr_number pr_url head_sha (some (tid, metadata)) =
    if eq_text (get "autofix_conflict_head" metadata) head_sha
    then []
    else (dispatch_or_queue ports tid (conflict_prompt pr_number pr_url)
        (run_configurable metadata owner repo pr_number)).1
      ∷ update_thread tid (field "autofix_conflict_head" (str head_sha) end)
      ∷ []

-- `_flag_merge_conflict`
unfoldable pub flag_merge_conflict : Ports → String → String → ℤ → String → String → List Effect
unfolding flag_on_thread find_agent_thread_for_pr
flag_merge_conflict ports owner repo pr_number pr_url head_sha =
    if ports.is_pr_autofix_disabled owner repo pr_number
    then []
    else flag_on_thread ports owner repo pr_number pr_url head_sha
        (find_agent_thread_for_pr ports pr_url)

-- the pull request that a thread's metadata names
pub record OpenPr : Type 0 where
  pub owner : String
  pub name : String
  pub pr_number : ℤ
  pub branch : String

unfoldable pub open_pr_of : Value → Option OpenPr
unfolding as_dict get num_of text_or
open_pr_of thread = elim (as_dict thread) [
  | none ↦ none
  | some t ↦ elim (as_dict (get "metadata" t)) [
    | none ↦ none
    | some metadata ↦ elim (as_dict (get "repo" metadata)) [
      | none ↦ none
      | some repo ↦ elim (num_of (get "pr_number" metadata)) [
        | none ↦ none
        | some number ↦
            if not (nonempty (text_or (get "owner" repo) ""))
              || not (nonempty (text_or (get "name" repo) ""))
            then none
            else some (record {
              owner = text_or (get "owner" repo) "";
              name = text_or (get "name" repo) "";
              pr_number = number;
              branch = text_or (get "branch_name" metadata) "";
            })
      ]
    ]
  ]
]

-- the count of the status that the handler returned
unfoldable pub counted : String → Counts → Counts
counted status c =
    if str_eq status "dispatched"
    then record c { dispatched = c.dispatched + 1 }
    else if str_eq status "queued"
    then record c { queued = c.queued + 1 }
    else c

unfoldable pub count_flow : Flow (Unit {0}) → Counts → Counts × List Effect
unfolding counted
count_flow (returned status effects) c = (counted status c, effects)
count_flow (next u) c = (c, [])

unfoldable pub ci_failure : OpenPr → Fields → String → CiFailure
unfolding inner_text
ci_failure p pr token = record {
  owner = p.owner;
  repo = p.name;
  branch = or_text (inner_text "head" "ref" pr) p.branch;
  head_sha = inner_text "head" "sha" pr;
  token = some token;
  failing_checks = none;
  pr = some pr;
}

-- behind the fetch of the pull request: a conflict is flagged, else its checks are handled
unfoldable pub sweep_pr :
    SweepPorts → String → OpenPr → Option Fields → Counts → Counts × List Effect
unfolding eq_text get flag_merge_conflict text_or inner_text count_flow handle_ci_failure ci_failure
sweep_pr sp token p none c = (c, [])
sweep_pr sp token p (some end) c = (c, [])
sweep_pr sp token p (some (field k v d)) c =
    let pr = field k v d in
    if eq_text (get "mergeable_state" pr) "dirty"
    then (
      record c { conflicts = c.conflicts + 1 },
      flag_merge_conflict sp.ports p.owner p.name p.pr_number (text_or (get "html_url" pr) "")
          (inner_text "head" "sha" pr),
    )
    else count_flow (handle_ci_failure sp.ports (ci_failure p pr token)) c

-- the turn of the loop
unfoldable pub sweep_thread : SweepPorts → String → Option OpenPr → Counts → Counts × List Effect
unfolding sweep_pr
sweep_thread sp token none c = (c, [])
sweep_thread sp token (some p) c =
    sweep_pr sp token p (sp.fetch_pr p.owner p.name p.pr_number token)
      (record c { scanned = c.scanned + 1 })

-- the loop; the services may answer otherwise at each turn
unfoldable pub sweep_from :
    (ℕ → SweepPorts) → ℕ → String → List Value → Counts → Counts × List Effect
unfolding sweep_thread open_pr_of
sweep_from sp n token [] c = (c, [])
sweep_from sp n token (t ∷ ts) c =
    let one = sweep_thread (sp n) token (open_pr_of t) c in
    let rest = sweep_from sp (n + 1) token ts one.0 in (rest.0, one.1 ++ rest.1)

-- `sweep_open_prs`, with the token and the threads that the search found, or none where it failed
unfoldable pub sweep_open_prs :
    (ℕ → SweepPorts) → String → Option (List Value) → Counts × List Effect
unfolding sweep_from
sweep_open_prs sp token none = (no_counts, [])
sweep_open_prs sp token (some threads) =
    if nonempty token then sweep_from sp 0 token threads no_counts else (no_counts, [])
