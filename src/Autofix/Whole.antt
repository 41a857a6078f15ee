-- ===== src/Autofix/Whole.antt =====
-- When the whole handler starts a fix.
use loupfeed_agents.Common.{
  String, ◌≡◌, refl, ap, ◌∙◌, Bool, true, false, ◌||◌, not, Option, none, some, nonempty, str_eq,
  arith,
}
use loupfeed_agents.Json.{Fields, end, field}
use loupfeed_agents.Autofix.Prompts.{Target}
use loupfeed_agents.Autofix.Ports.{Ports, Flow, ◌>>=◌, next, return_if, find_agent_thread_for_pr}
use loupfeed_agents.Autofix.Handler.{
  CiFailure, token_for, open_pr, choose_pr, find_pr, number_of, inner_text, or_text, find_target,
  thread_or_none, find_thread, fix_on_thread, handle_ci_failure,
}
use loupfeed_agents.Autofix.Allowed.{
  fixes, bind-fixes, return_if-next, bind-quiet, return_if-quiet, Allowed, all_go_to, actionable_of,
  fix_on_thread-Allowed, fix_on_thread-start_fix, start_fix-goes_to,
}

open_pr-quiet : (o : Option Fields) → fixes (open_pr o) ≡ false
unfolding open_pr
open_pr-quiet none = refl
open_pr-quiet (some end) = refl
open_pr-quiet (some (field k v d)) = refl

choose_pr-quiet :
    (o : Option Fields) (b : Bool) (f : Option Fields) → fixes (choose_pr o b f) ≡ false
unfolding choose_pr
choose_pr-quiet (some pr) b f = open_pr-quiet (some pr)
choose_pr-quiet none false f = refl
choose_pr-quiet none true f = open_pr-quiet f

number_of-quiet : (pr : Fields) → fixes (number_of pr) ≡ false
unfolding number_of
number_of-quiet pr = ground arith

thread_or_none-quiet : (o : Option (String × Fields)) → fixes (thread_or_none o) ≡ false
unfolding thread_or_none
thread_or_none-quiet none = refl
thread_or_none-quiet (some t) = refl

find_thread-quiet : (ports : Ports) (p : Target) → fixes (find_thread ports p) ≡ false
unfolding find_thread
find_thread-quiet ports p =
    bind-quiet (return_if (ports.is_pr_autofix_disabled p.owner p.repo p.pr_number) "pr_disabled") _
      (return_if-quiet _ _) (λ x. thread_or_none-quiet (find_agent_thread_for_pr ports p.pr_url))

find_target-quiet : (ports : Ports) (e : CiFailure) → fixes (find_target ports e) ≡ false
unfolding find_target find_pr
find_target-quiet ports e =
    let token = token_for ports e.token in
    bind-quiet (return_if (not (nonempty e.owner) || not (nonempty e.repo)) "missing_repo") _
      (return_if-quiet _ _)
      (λ x.
        bind-quiet (return_if (str_eq ports.settings.autofix_mode "off") "autofix_disabled_team") _
          (return_if-quiet _ _)
          (λ x.
            bind-quiet
              (return_if (not (ports.is_review_repo_enabled e.owner e.repo)) "repo_not_enabled") _
              (return_if-quiet _ _)
              (λ x.
                bind-quiet (return_if (not (nonempty token)) "no_token") _
                  (return_if-quiet (not (nonempty token)) _)
                  (λ x.
                    bind-quiet (find_pr ports e token) _
                      (choose_pr-quiet e.pr (nonempty e.branch) _)
                      (λ pr. bind-quiet (number_of pr) _ (number_of-quiet pr) (λ n.
                        bind-quiet
                          (return_if
                            (not (nonempty (or_text e.head_sha (inner_text "head" "sha" pr))))
                            "no_head_sha")
                          _ (return_if-quiet _ _) (λ x. refl)))))))

-- what a target has passed
find_target-next :
    (ports : Ports) (e : CiFailure) (p : Target)
    → find_target ports e ≡ next p
    → (str_eq ports.settings.autofix_mode "off" ≡ false)
      × (not (ports.is_review_repo_enabled e.owner e.repo) ≡ false)
unfolding find_target
find_target-next ports e p h =
    let one =
      return_if-next (not (nonempty e.owner) || not (nonempty e.repo)) "missing_repo" _ p h in
    let two =
      return_if-next (str_eq ports.settings.autofix_mode "off") "autofix_disabled_team" _ p one.1 in
    let three =
      return_if-next (not (ports.is_review_repo_enabled e.owner e.repo)) "repo_not_enabled" _ p
        two.1 in
    (two.0, three.0)

-- The handler starts a fix only for a target and a thread of the agent that it has found, in a team
-- that has not turned fixes off, in an enabled repository, for a pull request that has not opted
-- out, and only where a fix on that thread is allowed; all it then does goes to that thread, and its
-- status check to the head of the target.
pub handle_ci_failure-Allowed :
    (ports : Ports) (e : CiFailure)
    → fixes (handle_ci_failure ports e) ≡ true
    → (p : Target) × (thread : String × Fields) × (find_target ports e ≡ next p)
      × (find_thread ports p ≡ next thread)
      × (str_eq ports.settings.autofix_mode "off" ≡ false)
      × (not (ports.is_review_repo_enabled e.owner e.repo) ≡ false)
      × (ports.is_pr_autofix_disabled p.owner p.repo p.pr_number ≡ false)
      × Allowed ports p e.failing_checks thread.1
      × (all_go_to thread.0 p.head_sha (handle_ci_failure ports e) ≡ true)
unfolding handle_ci_failure find_thread
handle_ci_failure-Allowed ports e h =
    let target = bind-fixes (find_target ports e) _ (find_target-quiet ports e) h in
    let p = target.0 in
    let thread = bind-fixes (find_thread ports p) _ (find_thread-quiet ports p) target.2 in
    let fix = fix_on_thread-start_fix ports p e.failing_checks thread.0 thread.2 in
    let on_target : Target → Flow (Unit {0}) =
      λ q. (find_thread ports q >>= λ t. fix_on_thread ports q e.failing_checks t) in
    let gates = find_target-next ports e p target.1 in
    let opted =
      return_if-next (ports.is_pr_autofix_disabled p.owner p.repo p.pr_number) "pr_disabled" _
        thread.0 thread.1 in
    (
      p,
      thread.0,
      target.1,
      thread.1,
      gates.0,
      gates.1,
      opted.0,
      fix_on_thread-Allowed ports p e.failing_checks thread.0 thread.2,
      ap (λ (m : Flow (Unit {0})). all_go_to thread.0.0 p.head_sha m)
            (ap (λ (m : Flow Target). m >>= on_target) target.1
              ∙ ap (λ (m : Flow (String × Fields)). m >>= fix_on_thread ports p e.failing_checks)
                  thread.1
              ∙ fix.2)
          ∙ start_fix-goes_to ports p thread.0.0 thread.0.1 (actionable_of ports p fix.0),
    )
