-- ===== src/Autofix/Tests.antt =====
-- A failing check on a pull request of the agent.
use loupfeed_agents.Common.{
  arith, ◌≤◌, String, ◌≡◌, refl, true, false, not, none, some, List, [], ◌∷◌, length, str_eq,
}
use loupfeed_agents.Json.{pos, str, int, dict, Fields, field, end, update, items_of}
use loupfeed_agents.Autofix.Prompts.{Target}
use loupfeed_agents.Autofix.Keys.{attempts_of, handled_of, max_autofix_attempts, max_handled_keys}
use loupfeed_agents.Autofix.Ports.{Ports, next}
use loupfeed_agents.Autofix.Handler.{
  CiFailure, find_target, find_thread, read_failing, fix_on_thread, handle_ci_failure,
}
use loupfeed_agents.Autofix.Allowed.{fixes, all_go_to, Allowed}
use loupfeed_agents.Autofix.Whole.{handle_ci_failure-Allowed}
use loupfeed_agents.Autofix.Attempts.{metadata_after}
use loupfeed_agents.Autofix.Sweep.{SweepPorts, sweep_open_prs}
use loupfeed_agents.Common.{if◌then◌else◌, ◌==◌, ℕ}
use loupfeed_agents.Json.{put, null, Value}
use loupfeed_agents.Autofix.Runs.{start, failure, attempts_of-Reached}
use loupfeed_agents.Autofix.Handled.{fix_on_thread-handled}

abbrev the_metadata : Fields
the_metadata = field "agent_kind" (str "agent") (field "autofix_attempts" (int (pos 9)) end)

abbrev pull : Fields
pull = field "number" (int (pos 7)) (
    field "html_url" (str "https://github.com/o/r/pull/7")
      (field "head" (dict (field "sha" (str "c0ffee") (field "ref" (str "fix") end))) end))

abbrev failing : List Fields
failing = field "name" (str "lint") (field "conclusion" (str "failure") end) ∷ []

abbrev services : Ports
services = record {
  settings = record { autofix_mode = "on"; trigger_mode = "auto" };
  is_review_repo_enabled = λ owner repo. true;
  installation_token = "token";
  fetch_open_pr_for_branch = λ owner repo branch token. some pull;
  is_pr_autofix_disabled = λ owner repo number. false;
  search_threads = λ url.
      some (dict (field "thread_id" (str "t") (field "metadata" (dict the_metadata) end)) ∷ []);
  list_failing_check_runs = λ owner repo sha token. some failing;
  list_failing_statuses = λ owner repo sha token. none;
  head_commit_author_login = λ owner repo sha token. none;
  is_thread_active = λ tid. false;
  takes_update = λ tid. true;
  internal_bot_logins = [];
}

abbrev event : CiFailure
event = record {
  owner = "o";
  repo = "r";
  branch = "fix";
  head_sha = "";
  token = none;
  failing_checks = none;
  pr = none;
}

abbrev target : Target
target = record {
  owner = "o";
  repo = "r";
  token = "token";
  pr_number = pos 7;
  pr_url = "https://github.com/o/r/pull/7";
  base_sha = "";
  branch = "fix";
  head_sha = "c0ffee";
}

handle_ci_failure-Allowed_example :
    (p : Target) × (thread : String × Fields) × (find_target services event ≡ next p)
    × (find_thread services p ≡ next thread)
    × (str_eq "on" "off" ≡ false)
    × (not true ≡ false)
    × (false ≡ false)
    × Allowed services p none thread.1
    × (all_go_to thread.0 p.head_sha (handle_ci_failure services event) ≡ true)
unfolding handle_ci_failure
handle_ci_failure-Allowed_example = handle_ci_failure-Allowed services event refl

abbrev after_one : Fields
after_one =
    metadata_after services "t" the_metadata
      (fix_on_thread services target none ("t", the_metadata))

attempts_of-Reached_example :
    (attempts_of the_metadata ≤ attempts_of after_one)
    × (attempts_of after_one ≤ max_autofix_attempts)
unfolding attempts_of
attempts_of-Reached_example =
    attempts_of-Reached "t" the_metadata after_one (omega arith)
      (failure start services target none)

ten_attempts : attempts_of after_one ≡ 10
unfolding attempts_of fix_on_thread update items_of
ten_attempts = refl

-- the failure is back with the branch's next event
fix_on_thread-handled_example :
    (fixes (fix_on_thread services target none ("t", after_one)) ≡ false)
    × (length (handled_of after_one) ≤ max_handled_keys)
unfolding fix_on_thread read_failing
fix_on_thread-handled_example =
    fix_on_thread-handled services target none "t" the_metadata failing after_one services target
      none failing refl refl refl start refl refl

abbrev conflicting : Fields
conflicting = put "mergeable_state" (str "dirty") pull

abbrev poll : ℕ → SweepPorts
poll n = record {
  ports = services;
  fetch_pr = λ owner name number token. some (if n == 0 then conflicting else pull);
}

abbrev open_thread : Value
open_thread = dict (
    field "metadata"
      (dict (
        field "repo" (dict (field "owner" (str "o") (field "name" (str "r") end)))
          (field "pr_number" (int (pos 7)) end)))
      end)

swept :
    (sweep_open_prs poll "token" (some (open_thread ∷ open_thread ∷ null ∷ []))).0
    ≡ record { scanned = 2; dispatched = 1; queued = 0; conflicts = 1 }
unfolding sweep_open_prs put handle_ci_failure
swept = refl
