-- ===== src/Autofix/Ports.antt =====
-- What the handler reads from outside, as parameters, what it does, and the shape of its returns.
use loupfeed_agents.Common.{
  String, Bool, true, false, Option, none, some, List, [], ◌∷◌, if◌then◌else◌, ◌&&◌, not, nonempty,
}
use loupfeed_agents.Json.{Value, ℤ, Fields, get, as_dict, eq_text, text_or, truthy, has_text}

-- the team's settings
pub record Settings : Type 0 where
  pub autofix_mode : String
  pub trigger_mode : String

-- The answers of the services at the time of the call. A read of GitHub that fails answers none.
-- `takes_update`: an update of the thread's metadata takes effect; its failure is swallowed.
pub record Ports : Type 0 where
  pub settings : Settings
  pub is_review_repo_enabled : String → String → Bool
  pub installation_token : String
  pub fetch_open_pr_for_branch : String → String → String → String → Option Fields
  pub is_pr_autofix_disabled : String → String → ℤ → Bool
  pub search_threads : String → Option (List Value)
  pub list_failing_check_runs : String → String → String → String → Option (List Fields)
  pub list_failing_statuses : String → String → String → String → Option (List Fields)
  pub head_commit_author_login : String → String → String → String → Option String
  pub is_thread_active : String → Bool
  pub takes_update : String → Bool
  pub internal_bot_logins : List String

-- the requests that write, in their order
pub data Effect : Type 0 where
  queue_message : String → String → Effect
  create_run : String → String → Fields → Effect
  update_thread : String → Fields → Effect
  status_check : String → String → Effect

-- A block returns a status with its effects, or goes on.
pub data Flow (A : Type 0) : Type 0 where
  returned : String → List Effect → Flow A
  next : A → Flow A

infixl 5 ◌>>=◌
abbrev pub ◌>>=◌ : {A B : Type 0} → Flow A → (A → Flow B) → Flow B
returned status effects >>= f = returned status effects
next a >>= f = f a

-- `if b: return status`
abbrev pub return_if : Bool → String → Flow (Unit {0})
return_if true status = returned status []
return_if false status = next tt

-- the thread of the loop, where it is the coding agent's
unfoldable pub agent_thread : Value → Option (String × Fields)
unfolding as_dict get eq_text truthy has_text text_or
agent_thread thread = elim (as_dict thread) [
  | none ↦ none
  | some t ↦ elim (as_dict (get "metadata" t)) [
    | none ↦ none
    | some metadata ↦
        let id = if truthy (get "thread_id" t) then get "thread_id" t else get "id" t in
        if not (eq_text (get "kind" metadata) "reviewer")
          && (eq_text (get "agent_kind" metadata) "agent" && has_text id)
        then some (text_or id "", metadata)
        else none
  ]
]

unfoldable pub first_agent_thread : List Value → Option (String × Fields)
unfolding agent_thread
first_agent_thread [] = none
first_agent_thread (v ∷ vs) =
    let rest = first_agent_thread vs in elim (agent_thread v) [ none ↦ rest | some t ↦ some t ]

-- `find_agent_thread_for_pr`
unfoldable pub find_agent_thread_for_pr : Ports → String → Option (String × Fields)
unfolding first_agent_thread
find_agent_thread_for_pr ports pr_url =
    if nonempty pr_url
    then (elim (ports.search_threads pr_url) [
      | none ↦ none
      | some threads ↦ first_agent_thread threads
    ])
    else none
