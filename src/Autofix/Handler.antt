-- ===== src/Autofix/Handler.antt =====
-- `handle_ci_failure` and `handle_review_feedback`.
use loupfeed_agents.Common.{
  leb, String, Bool, true, false, ◌&&◌, ◌||◌, not, Option, none, some, List, [], ◌∷◌, ◌++◌, map,
  if◌then◌else◌, mem_str, nonempty, null, str_eq, ◌⧺◌, show_ℕ, length,
}
use loupfeed_agents.Json.{
  Value, ℤ, int, str, dict, num_of, Fields, field, end, get, put, as_dict, text_or, has_text,
  in_texts,
}
use loupfeed_agents.Findings.Create.{lower}
use loupfeed_agents.Autofix.Prompts.{Target, build_ci_fix_prompt, build_review_feedback_prompt}
use loupfeed_agents.Autofix.Keys.{
  max_autofix_attempts, dedupe_key, attempts_of, handled_of, login_of, attempt_update,
}
use loupfeed_agents.Autofix.Ports.{
  Ports, Effect, queue_message, create_run, update_thread, status_check, Flow, returned, next,
  ◌>>=◌, return_if, find_agent_thread_for_pr,
}

-- the arguments of `handle_ci_failure`
pub record CiFailure : Type 0 where
  pub owner : String
  pub repo : String
  pub branch : String
  pub head_sha : String
  pub token : Option String
  pub failing_checks : Option (List Fields)
  pub pr : Option Fields

abbrev pub or_text : String → String → String
or_text s t = if nonempty s then s else t

-- `(pr.get(k) or {}).get(j, "")`
unfoldable pub inner_text : String → String → Fields → String
unfolding as_dict get text_or
inner_text k j pr = elim (as_dict (get k pr)) [ none ↦ "" | some d ↦ text_or (get j d) "" ]

unfoldable pub token_for : Ports → Option String → String
token_for ports none = ports.installation_token
token_for ports (some t) = t

-- `if not pr`: an empty dict is none
unfoldable pub open_pr : Option Fields → Flow Fields
open_pr none = returned "no_open_pr" []
open_pr (some end) = returned "no_open_pr" []
open_pr (some (field k v d)) = next (field k v d)

-- the pull request: given, or fetched where there is a branch
unfoldable pub choose_pr : Option Fields → Bool → Option Fields → Flow Fields
unfolding open_pr
choose_pr (some pr) has_branch fetched = open_pr (some pr)
choose_pr none false fetched = returned "no_branch" []
choose_pr none true fetched = open_pr fetched

unfoldable pub find_pr : Ports → CiFailure → String → Flow Fields
unfolding choose_pr
find_pr ports e token =
    choose_pr e.pr (nonempty e.branch)
      (ports.fetch_open_pr_for_branch e.owner e.repo e.branch token)

unfoldable pub number_of : Fields → Flow ℤ
unfolding num_of get
number_of pr = elim (num_of (get "number" pr)) [
  | none ↦ returned "no_pr_number" []
  | some n ↦ next n
]

-- up to the check of the head commit
unfoldable pub find_target : Ports → CiFailure → Flow Target
unfolding token_for find_pr number_of text_or get inner_text
find_target ports e = do
  tt ← return_if (not (nonempty e.owner) || not (nonempty e.repo)) "missing_repo"
  tt ← return_if (str_eq ports.settings.autofix_mode "off") "autofix_disabled_team"
  tt ← return_if (not (ports.is_review_repo_enabled e.owner e.repo)) "repo_not_enabled"
  tt ← return_if (not (nonempty (token_for ports e.token))) "no_token"
  pr ← find_pr ports e (token_for ports e.token)
  number ← number_of pr
  tt ← return_if (not (nonempty (or_text e.head_sha (inner_text "head" "sha" pr)))) "no_head_sha"
  next (record {
    owner = e.owner;
    repo = e.repo;
    token = token_for ports e.token;
    pr_number = number;
    pr_url = or_text (text_or (get "html_url" pr) "") (text_or (get "url" pr) "");
    base_sha = inner_text "base" "sha" pr;
    branch = or_text e.branch (inner_text "head" "ref" pr);
    head_sha = or_text e.head_sha (inner_text "head" "sha" pr);
  })

unfoldable pub thread_or_none : Option (String × Fields) → Flow (String × Fields)
thread_or_none none = returned "no_agent_thread" []
thread_or_none (some t) = next t

-- the agent's thread of the pull request, unless the pull request has opted out
unfoldable pub find_thread : Ports → Target → Flow (String × Fields)
unfolding find_agent_thread_for_pr thread_or_none
find_thread ports p = do
  tt ← return_if (ports.is_pr_autofix_disabled p.owner p.repo p.pr_number) "pr_disabled"
  thread_or_none (find_agent_thread_for_pr ports p.pr_url)

unfoldable pub at_cap : Target → Bool → Flow (Unit {0})
at_cap p true = returned "max_attempts" (status_check p.head_sha "Auto-fix limit reached" ∷ [])
at_cap p false = next tt

-- the trigger mode and the cap
unfoldable pub check_attempts : Ports → Target → Fields → Flow (Unit {0})
unfolding attempts_of at_cap
check_attempts ports p metadata = do
  tt ← return_if (str_eq ports.settings.trigger_mode "manual") "trigger_manual"
  tt ←
      return_if (str_eq ports.settings.trigger_mode "once_per_pr" && leb 1 (attempts_of metadata))
        "once_per_pr_done"
  at_cap p (leb max_autofix_attempts (attempts_of metadata))

abbrev pub or_none : Option (List Fields) → List Fields
or_none none = []
or_none (some l) = l

-- the failing checks, given or read
-- `None` only where both reads have failed
unfoldable pub joined : Option (List Fields) → Option (List Fields) → Flow (List Fields)
joined (some runs) statuses = next (runs ++ or_none statuses)
joined none (some statuses) = next statuses
joined none none = returned "ci_read_failed" []

unfoldable pub read_failing : Ports → Target → Option (List Fields) → Flow (List Fields)
unfolding joined
read_failing ports p (some checks) = next checks
read_failing ports p none =
    joined (ports.list_failing_check_runs p.owner p.repo p.head_sha p.token)
      (ports.list_failing_statuses p.owner p.repo p.head_sha p.token)

unfoldable pub name_of : Fields → String
unfolding text_or get
name_of check = text_or (get "name" check) ""

-- `_failing_names`
unfoldable pub failing_names : List Fields → List String
unfolding name_of
failing_names [] = []
failing_names (c ∷ cs) =
    let rest = failing_names cs in if nonempty (name_of c) then name_of c ∷ rest else rest

unfoldable pub names_failing_on_base : Ports → Target → List String
unfolding failing_names
names_failing_on_base ports p =
    if nonempty p.base_sha
    then failing_names (or_none (ports.list_failing_check_runs p.owner p.repo p.base_sha p.token))
      ++ failing_names (or_none (ports.list_failing_statuses p.owner p.repo p.base_sha p.token))
    else []

unfoldable pub not_on_base : List String → List Fields → List Fields
unfolding name_of
not_on_base base [] = []
not_on_base base (c ∷ cs) =
    let rest = not_on_base base cs in if mem_str (name_of c) base then rest else c ∷ rest

-- the head commit's author is known, is no bot, and is not the user of the thread
unfoldable pub is_human_commit : Ports → Target → Fields → Bool
unfolding login_of lower
is_human_commit ports p metadata =
    elim (ports.head_commit_author_login p.owner p.repo p.head_sha p.token) [
      | none ↦ false
      | some author ↦
          not (mem_str author ports.internal_bot_logins)
          && (not (nonempty (login_of metadata))
              || not (str_eq (lower author) (lower (login_of metadata))))
    ]

-- the failing checks that are acted on, with the key of the failure
unfoldable pub find_actionable :
    Ports → Target → Fields → Option (List Fields) → Flow (List Fields × String)
unfolding read_failing not_on_base names_failing_on_base dedupe_key name_of handled_of
    is_human_commit
find_actionable ports p metadata given = do
  checks ← read_failing ports p given
  tt ← return_if (null checks) "no_failing_checks"
  tt ← return_if (null (not_on_base (names_failing_on_base ports p) checks)) "all_failing_on_base"
  tt ←
      return_if
        (mem_str
          (dedupe_key p.head_sha (map name_of (not_on_base (names_failing_on_base ports p) checks)))
          (handled_of metadata))
        "already_handled"
  tt ← return_if (is_human_commit ports p metadata) "human_commit"
  next (
    not_on_base (names_failing_on_base ports p) checks,
    dedupe_key p.head_sha (map name_of (not_on_base (names_failing_on_base ports p) checks)),
  )

put_text : String → Value → Fields → Fields
unfolding has_text put
put_text k v d = if has_text v then put k v d else d

-- `_run_configurable`
unfoldable pub run_configurable : Fields → String → String → ℤ → Fields
unfolding in_texts get put_text
run_configurable metadata owner repo pr_number =
    let source = get "source" metadata in
    put_text "user_email" (get "triggering_user_email" metadata) (
      put_text "github_login" (get "github_login" metadata) (
        field "source"
          (if in_texts source ("github" ∷ "slack" ∷ "dashboard" ∷ "linear" ∷ "schedule" ∷ [])
            then source
            else str "github")
          (field "repo" (dict (field "owner" (str owner) (field "name" (str repo) end)))
            (field "pr_number" (int pr_number) end))))

-- `_dispatch_or_queue`: the status, and the message to a busy thread or the run
unfoldable pub dispatch_or_queue : Ports → String → String → Fields → String × Effect
dispatch_or_queue ports thread_id prompt configurable =
    if ports.is_thread_active thread_id
    then ("queued", queue_message thread_id prompt)
    else ("dispatched", create_run thread_id prompt configurable)

-- `_record_attempt`: the request, whose failure is swallowed
unfoldable pub record_attempt : String → Fields → String → String → Effect
unfolding attempts_of handled_of attempt_update
record_attempt thread_id metadata key head_sha =
    update_thread thread_id
      (attempt_update (attempts_of metadata) (handled_of metadata) key head_sha)

-- behind the checks: the fix, its record, and the status check
unfoldable pub start_fix : Ports → Target → String × Fields → List Fields × String → Flow (Unit {0})
unfolding dispatch_or_queue build_ci_fix_prompt run_configurable record_attempt
start_fix ports p (thread_id, metadata) (actionable, key) =
    let (status, fix) =
      dispatch_or_queue ports thread_id (build_ci_fix_prompt p actionable)
        (run_configurable metadata p.owner p.repo p.pr_number) in
    returned status (
      fix
      ∷ record_attempt thread_id metadata key p.head_sha
      ∷ status_check p.head_sha
          ("Auto-fixing " ⧺ (show_ℕ (length actionable) ⧺ " failing check(s)"))
      ∷ [])

-- the part of `handle_ci_failure` behind the search for the thread
unfoldable pub fix_on_thread :
    Ports → Target → Option (List Fields) → String × Fields → Flow (Unit {0})
unfolding check_attempts find_actionable start_fix
fix_on_thread ports p given thread = do
  tt ← check_attempts ports p thread.1
  actionable ← find_actionable ports p thread.1 given
  start_fix ports p thread actionable

unfoldable pub handle_ci_failure : Ports → CiFailure → Flow (Unit {0})
unfolding find_target find_thread fix_on_thread
handle_ci_failure ports e = do
  p ← find_target ports e
  thread ← find_thread ports p
  fix_on_thread ports p e.failing_checks thread

-- the arguments of `handle_review_feedback`
pub record Feedback : Type 0 where
  pub owner : String
  pub repo : String
  pub pr_number : ℤ
  pub pr_url : String
  pub reviewer : String
  pub body : String

answer_feedback : Ports → Feedback → String × Fields → Flow (Unit {0})
unfolding dispatch_or_queue build_review_feedback_prompt run_configurable
answer_feedback ports e (thread_id, metadata) =
    let (status, fix) =
      dispatch_or_queue ports thread_id
        (build_review_feedback_prompt e.owner e.repo e.pr_number e.pr_url e.reviewer e.body)
        (run_configurable metadata e.owner e.repo e.pr_number) in
    returned status (fix ∷ [])

unfoldable pub handle_review_feedback : Ports → Feedback → Flow (Unit {0})
unfolding find_agent_thread_for_pr thread_or_none answer_feedback
handle_review_feedback ports e = do
  tt ←
      return_if (not (nonempty e.owner) || (not (nonempty e.repo) || not (nonempty e.pr_url)))
        "missing_repo"
  tt ← return_if (str_eq ports.settings.autofix_mode "off") "autofix_disabled_team"
  tt ← return_if (str_eq ports.settings.trigger_mode "manual") "trigger_manual"
  tt ← return_if (not (ports.is_review_repo_enabled e.owner e.repo)) "repo_not_enabled"
  tt ← return_if (ports.is_pr_autofix_disabled e.owner e.repo e.pr_number) "pr_disabled"
  thread ← thread_or_none (find_agent_thread_for_pr ports e.pr_url)
  answer_feedback ports e thread
