-- ===== src/Autofix/Allowed.antt =====
-- When a fix is started.
use loupfeed_agents.Common.{
  leb, ◌<◌, String, ◌≡◌, refl, sym, ap, ◌∙◌, Bool, true, false, ◌&&◌, Option, none, some, List, map,
  any, all, null, mem_str, eq_refl, Bool-cases, inl, inr, str_eq, arith,
}
use loupfeed_agents.Json.{Fields}
use loupfeed_agents.Autofix.Prompts.{Target}
use loupfeed_agents.Autofix.Keys.{max_autofix_attempts, dedupe_key, attempts_of, handled_of}
use loupfeed_agents.Autofix.Ports.{
  Ports, Effect, queue_message, create_run, update_thread, status_check, Flow, returned, next,
  ◌>>=◌, return_if,
}
use loupfeed_agents.Autofix.Handler.{
  dispatch_or_queue, record_attempt, check_attempts, find_actionable, start_fix, fix_on_thread,
  read_failing, not_on_base, names_failing_on_base, name_of, is_human_commit, at_cap, joined,
}

-- an effect on a thread: a message, a run, or an update
abbrev pub is_fix : Effect → Bool
is_fix (status_check s t) = false
is_fix _ = true

-- a request that goes to the thread, or a status check on the commit
abbrev pub goes_to : String → String → Effect → Bool
goes_to tid sha (queue_message t p) = str_eq t tid
goes_to tid sha (create_run t p c) = str_eq t tid
goes_to tid sha (update_thread t new) = str_eq t tid
goes_to tid sha (status_check s t) = str_eq s sha

-- all requests with which the block returns
abbrev pub all_go_to : {A : Type 0} → String → String → Flow A → Bool
all_go_to tid sha (returned status effects) = all (goes_to tid sha) effects
all_go_to tid sha (next a) = true

-- The block returns with an effect on a thread.
abbrev pub fixes : {A : Type 0} → Flow A → Bool
fixes (returned status effects) = any is_fix effects
fixes (next a) = false

module _ {A B : Type 0} where
  pub bind-fixes :
      (m : Flow A) (f : A → Flow B)
      → fixes m ≡ false
      → fixes (m >>= f) ≡ true
      → (a : A) × (m ≡ next a) × (fixes (f a) ≡ true)
  bind-fixes (returned s fx) f quiet h = absurd (cc (quiet, h))
  bind-fixes (next a) f quiet h = (a, refl, h)

  pub bind-next :
      (m : Flow A) (f : A → Flow B) (b : B)
      → (m >>= f) ≡ next b
      → (a : A) × (m ≡ next a) × (f a ≡ next b)
  bind-next (returned s fx) f b h = absurd (cc h)
  bind-next (next a) f b h = (a, refl, h)

  pub bind-quiet :
      (m : Flow A) (f : A → Flow B)
      → fixes m ≡ false
      → ((a : A) → fixes (f a) ≡ false)
      → fixes (m >>= f) ≡ false
  bind-quiet (returned s fx) f quiet k = quiet
  bind-quiet (next a) f quiet k = k a

pub return_if-next :
    {B : Type 0} (b : Bool) (s : String) (f : Unit {0} → Flow B) (x : B)
    → (return_if b s >>= f) ≡ next x
    → (b ≡ false) × (f tt ≡ next x)
return_if-next true s f x h = absurd (cc h)
return_if-next false s f x h = (refl, h)

pub return_if-quiet : (b : Bool) (s : String) → fixes (return_if b s) ≡ false
return_if-quiet true s = refl
return_if-quiet false s = refl

-- What holds when a fix is started on a thread.
pub record Allowed (ports : Ports) (p : Target) (given : Option (List Fields)) (metadata : Fields)
    : Type 0 where
  pub checks : List Fields
  pub read : read_failing ports p given ≡ next checks
  pub automatic : str_eq ports.settings.trigger_mode "manual" ≡ false
  pub first_of_pr :
      (str_eq ports.settings.trigger_mode "once_per_pr" && leb 1 (attempts_of metadata)) ≡ false
  pub below_cap : attempts_of metadata < max_autofix_attempts
  pub new_failure : null (not_on_base (names_failing_on_base ports p) checks) ≡ false
  pub unhandled :
      mem_str
        (dedupe_key p.head_sha (map name_of (not_on_base (names_failing_on_base ports p) checks)))
        (handled_of metadata)
      ≡ false
  pub own_commit : is_human_commit ports p metadata ≡ false

at_cap-quiet : (p : Target) (b : Bool) → fixes (at_cap p b) ≡ false
unfolding at_cap
at_cap-quiet p true = refl
at_cap-quiet p false = refl

at_cap-next : (p : Target) (b : Bool) (u : Unit {0}) → at_cap p b ≡ next u → b ≡ false
unfolding at_cap
at_cap-next p true u h = absurd (cc h)
at_cap-next p false u h = refl

check_attempts-quiet :
    (ports : Ports) (p : Target) (metadata : Fields)
    → fixes (check_attempts ports p metadata) ≡ false
unfolding check_attempts
check_attempts-quiet ports p metadata =
    bind-quiet (return_if (str_eq ports.settings.trigger_mode "manual") "trigger_manual") _
      (return_if-quiet _ _)
      (λ x.
        bind-quiet
          (return_if
            (str_eq ports.settings.trigger_mode "once_per_pr" && leb 1 (attempts_of metadata))
            "once_per_pr_done")
          _ (return_if-quiet _ _)
          (λ y. at_cap-quiet p (leb max_autofix_attempts (attempts_of metadata))))

joined-quiet : (runs statuses : Option (List Fields)) → fixes (joined runs statuses) ≡ false
unfolding joined
joined-quiet (some r) s = refl
joined-quiet none (some s) = refl
joined-quiet none none = refl

read_failing-quiet :
    (ports : Ports) (p : Target) (given : Option (List Fields))
    → fixes (read_failing ports p given) ≡ false
read_failing-quiet ports p (some checks) = unfold read_failing in refl
read_failing-quiet ports p none = unfold read_failing in joined-quiet _ _

find_actionable-quiet :
    (ports : Ports) (p : Target) (metadata : Fields) (given : Option (List Fields))
    → fixes (find_actionable ports p metadata given) ≡ false
unfolding find_actionable
find_actionable-quiet ports p metadata given =
    bind-quiet (read_failing ports p given) _ (read_failing-quiet ports p given) (λ checks.
      let base = names_failing_on_base ports p in
      let key = dedupe_key p.head_sha (map name_of (not_on_base base checks)) in
      bind-quiet (return_if (null checks) "no_failing_checks") _ (return_if-quiet (null checks) _)
        (λ x.
          bind-quiet (return_if (null (not_on_base base checks)) "all_failing_on_base") _
            (return_if-quiet (null (not_on_base base checks)) _)
            (λ x.
              bind-quiet (return_if (mem_str key (handled_of metadata)) "already_handled") _
                (return_if-quiet (mem_str key (handled_of metadata)) _)
                (λ x.
                  bind-quiet (return_if (is_human_commit ports p metadata) "human_commit") _
                    (return_if-quiet (is_human_commit ports p metadata) _) (λ x. refl)))))

-- the checks on the thread's attempts, passed
check_attempts-next :
    (ports : Ports) (p : Target) (metadata : Fields) (u : Unit {0})
    → check_attempts ports p metadata ≡ next u
    → (str_eq ports.settings.trigger_mode "manual" ≡ false)
      × ((str_eq ports.settings.trigger_mode "once_per_pr" && leb 1 (attempts_of metadata)) ≡ false)
      × (attempts_of metadata < max_autofix_attempts)
unfolding check_attempts
check_attempts-next ports p metadata u h =
    let one = return_if-next (str_eq ports.settings.trigger_mode "manual") "trigger_manual" _ u h in
    let two =
      return_if-next
        (str_eq ports.settings.trigger_mode "once_per_pr" && leb 1 (attempts_of metadata))
        "once_per_pr_done" _ u one.1 in
    (
      one.0,
      two.0,
      ground (arith, at_cap-next p (leb max_autofix_attempts (attempts_of metadata)) u two.1),
    )

-- A fix is started on a thread only where the mode is automatic, and not once for each pull request
-- where the thread has an attempt, the thread has fewer attempts than
-- the cap, a check fails that does not fail on the base, the failure is not handled, and the head
-- commit is not a human's.
pub fix_on_thread-Allowed :
    (ports : Ports) (p : Target) (given : Option (List Fields)) (thread : String × Fields)
    → fixes (fix_on_thread ports p given thread) ≡ true
    → Allowed ports p given thread.1
unfolding fix_on_thread find_actionable
fix_on_thread-Allowed ports p given thread h =
    let started =
      bind-fixes (check_attempts ports p thread.1) _ (check_attempts-quiet ports p thread.1) h in
    let passed = check_attempts-next ports p thread.1 started.0 started.1 in
    let acted =
      bind-fixes (find_actionable ports p thread.1 given) _
        (find_actionable-quiet ports p thread.1 given) started.2 in
    let read = bind-next (read_failing ports p given) _ acted.0 acted.1 in
    let base = names_failing_on_base ports p in
    let some_check = return_if-next (null read.0) "no_failing_checks" _ acted.0 read.2 in
    let not_all =
      return_if-next (null (not_on_base base read.0)) "all_failing_on_base" _ acted.0
        some_check.1 in
    let fresh =
      return_if-next
        (mem_str (dedupe_key p.head_sha (map name_of (not_on_base base read.0)))
          (handled_of thread.1))
        "already_handled" _ acted.0 not_all.1 in
    let own = return_if-next (is_human_commit ports p thread.1) "human_commit" _ acted.0 fresh.1 in
    record {
      checks = read.0;
      read = read.1;
      automatic = passed.0;
      first_of_pr = passed.1;
      below_cap = passed.2;
      new_failure = not_all.0;
      unhandled = fresh.0;
      own_commit = own.0;
    }

-- the failing checks that are not on the base, with their key
abbrev pub actionable_of : Ports → Target → List Fields → List Fields × String
actionable_of ports p checks = (
  not_on_base (names_failing_on_base ports p) checks,
  dedupe_key p.head_sha (map name_of (not_on_base (names_failing_on_base ports p) checks)),
)

-- A fix that is started is the one for the failing checks that are not on the base, under their key.
pub fix_on_thread-start_fix :
    (ports : Ports) (p : Target) (given : Option (List Fields)) (thread : String × Fields)
    → fixes (fix_on_thread ports p given thread) ≡ true
    → (checks : List Fields) × (read_failing ports p given ≡ next checks)
      × (fix_on_thread ports p given thread
          ≡ start_fix ports p thread (actionable_of ports p checks))
unfolding fix_on_thread find_actionable
fix_on_thread-start_fix ports p given thread h =
    let started =
      bind-fixes (check_attempts ports p thread.1) _ (check_attempts-quiet ports p thread.1) h in
    let acted =
      bind-fixes (find_actionable ports p thread.1 given) _
        (find_actionable-quiet ports p thread.1 given) started.2 in
    let read = bind-next (read_failing ports p given) _ acted.0 acted.1 in
    let base = names_failing_on_base ports p in
    let some_check = return_if-next (null read.0) "no_failing_checks" _ acted.0 read.2 in
    let not_all =
      return_if-next (null (not_on_base base read.0)) "all_failing_on_base" _ acted.0
        some_check.1 in
    let fresh =
      return_if-next
        (mem_str (dedupe_key p.head_sha (map name_of (not_on_base base read.0)))
          (handled_of thread.1))
        "already_handled" _ acted.0 not_all.1 in
    let own = return_if-next (is_human_commit ports p thread.1) "human_commit" _ acted.0 fresh.1 in
    (
      read.0,
      read.1,
      ap
            (λ (m : Flow (Unit {0})).
              m >>= λ x. (find_actionable ports p thread.1 given >>= start_fix ports p thread))
            started.1
          ∙ ap (λ (m : Flow (List Fields × String)). m >>= start_fix ports p thread)
              (acted.1 ∙ sym own.1),
    )

-- A fix goes to its thread alone, and its status check to the head of the target.
pub start_fix-goes_to :
    (ports : Ports) (p : Target) (tid : String) (metadata : Fields) (x : List Fields × String)
    → all_go_to tid p.head_sha (start_fix ports p (tid, metadata) x) ≡ true
unfolding start_fix dispatch_or_queue record_attempt
start_fix-goes_to ports p tid metadata x = elim (Bool-cases (ports.is_thread_active tid)) [
  | inl h ↦ rw (h, eq_refl tid, eq_refl p.head_sha) refl
  | inr h ↦ rw (h, eq_refl tid, eq_refl p.head_sha) refl
]
