-- ===== src/Breaker/Runs.antt =====
-- The circuit breaker against a plain count of the failures at the end of the history.
use mathlib.Core.List.{reverse-reverse, reverse-append}
use loupfeed_agents.Common.{
  ℕ, zero, suc, ◌+◌, ◌-◌, ◌<◌, String, ◌≡◌, ◌≢◌, refl, ap, ◌∙◌, true, false, Option, none, some,
  List, [], ◌∷◌, ◌++◌, reverse, last?, leb, if◌then◌else◌, is_infix, is_infix-append, arith, eq_iff,
  All, ◌⊎◌, inl, inr, Option-cases,
}
use loupfeed_agents.Breaker.Message.{
  tool, human, system, other, Message, content_to_text, marker, recreated_text, extract_sandbox_id,
}
use loupfeed_agents.Breaker.Streak.{
  Reason, client_error, recreated, Streak, Loop, fresh, finish, go, stop, turn, scan,
  sandbox_error_streak, has_marker, last_has_marker, trip_message, before_model,
}

-- What went wrong in a tool call: the sandbox was recreated, or a sandbox does not answer.
pub data Cause : Type 0 where
  recreation : Cause
  failure : String → Cause

unfoldable pub cause_of : String → Option Cause
cause_of t = if is_infix recreated_text t then some recreation else (elim (extract_sandbox_id t) [
  | none ↦ none
  | some i ↦ if is_infix "SandboxClientError" t then some (failure i) else none
])

unfoldable pub fault : Message → Option Cause
unfolding cause_of
fault m = elim m.kind [ tool ↦ cause_of (content_to_text m.content) | _ ↦ none ]

-- A message that does not interrupt a run of failures with the cause `c`: one more of them, or a
-- message of the model; neither is a trip message.
pub record Continues (c : Cause) (m : Message) : Type 0 where
  pub unmarked : has_marker m ≡ false
  pub role : (fault m ≡ some c) ⊎ (m.kind ≡ other)

-- A message that ends it: a tool message with no fault or another cause, or a message of the user
-- or the system that is no trip message.
pub data Ends (c : Cause) (m : Message) : Type 0 where
  by_tool : m.kind ≡ tool → fault m ≢ some c → Ends c m
  by_human : m.kind ≡ human → has_marker m ≡ false → Ends c m
  by_system : m.kind ≡ system → has_marker m ≡ false → Ends c m

unfoldable pub faults : List Message → ℕ
unfolding fault
faults [] = 0
faults (m ∷ ms) = elim (fault m) [ none ↦ faults ms | some c ↦ faults ms + 1 ]

abbrev pub reason_of : Cause → Reason
reason_of recreation = recreated
reason_of (failure i) = client_error

abbrev pub id_of : Cause → Option String
id_of recreation = none
id_of (failure i) = some i

abbrev pub streak_of : Cause → ℕ → Streak
streak_of c n = record { reason = reason_of c; sandbox_id = id_of c; count = n }

-- The variables of the loop behind `n` failures with the cause `c`.
abbrev loop_of : Cause → ℕ → Loop
loop_of c zero = fresh
loop_of c (suc n) = record { reason = some (reason_of c); sandbox_id = id_of c; count = suc n }

turn-fault :
    (c : Cause) (n : ℕ) (t : String)
    → cause_of t ≡ some c
    → turn tool t (loop_of c n) ≡ go (loop_of c (suc n))
unfolding turn cause_of
turn-fault recreation zero t h = ground arith
turn-fault recreation (suc n) t h = ground arith
turn-fault (failure i) zero t h = ground arith
turn-fault (failure i) (suc n) t h = ground (arith, eq_iff i i)

turn-stop :
    (c : Cause) (n : ℕ) (t : String) → cause_of t ≢ some c → turn tool t (loop_of c (suc n)) ≡ stop
unfolding turn cause_of
turn-stop recreation n t h = ground arith
turn-stop (failure i) n t h = elim (Option-cases (extract_sandbox_id t)) [
  | inl e ↦ ground arith
  | inr (j, e) ↦ ground (arith, eq_iff i j, eq_iff j i)
]

turn-other : (s : Loop) (t : String) → is_infix marker t ≡ false → turn other t s ≡ go s
unfolding turn
turn-other s t h = ground arith

scan_go :
    (s s' : Loop) (m : Message) (ms : List Message)
    → turn m.kind (content_to_text m.content) s ≡ go s'
    → scan s (m ∷ ms) ≡ scan s' ms
unfolding scan
scan_go s s' m ms h = rw (h, scan)

scan_stop :
    (s : Loop) (m : Message) (ms : List Message)
    → turn m.kind (content_to_text m.content) s ≡ stop
    → scan s (m ∷ ms) ≡ finish s
unfolding scan finish
scan_stop s m ms h = rw (h, scan)

-- A fault is a tool message.
fault-tool :
    (m : Message) (c : Cause)
    → fault m ≡ some c
    → (m.kind ≡ tool) × (cause_of (content_to_text m.content) ≡ some c)
unfolding fault
fault-tool m c h = ground arith

other-no_fault : (m : Message) → m.kind ≡ other → fault m ≡ none
unfolding fault
other-no_fault m h = ground arith

-- The loop counts the failures of a run, whatever the model said in between.
scan-run :
    (c : Cause) (n : ℕ) (run rest : List Message)
    → All (Continues c) run
    → scan (loop_of c n) (run ++ rest) ≡ scan (loop_of c (faults run + n)) rest
unfolding faults
scan-run c n [] rest h = let e : 0 + n ≡ n = omega arith in rw e
scan-run c n (m ∷ run) rest h = elim h.0.role [
  | inl e ↦
      let (is_tool, cause) = fault-tool m c e in
      let count : faults (m ∷ run) + n ≡ faults run + suc n = rw (e, faults) (omega arith) in
      rw count (
        scan_go (loop_of c n) (loop_of c (suc n)) m (run ++ rest)
          (rw is_tool (turn-fault c n (content_to_text m.content) cause))
        ∙ scan-run c (suc n) run rest h.1)
  | inr e ↦
      let count : faults (m ∷ run) ≡ faults run = rw (other-no_fault m e, faults) in
      rw count (
        scan_go (loop_of c n) (loop_of c n) m (run ++ rest) (
          rw e (
            turn-other (loop_of c n) (content_to_text m.content)
              (unfold has_marker in h.0.unmarked)))
        ∙ scan-run c n run rest h.1)
]

tool-fault : (m : Message) → m.kind ≡ tool → fault m ≡ cause_of (content_to_text m.content)
unfolding fault
tool-fault m h = ground arith

turn-Ends :
    (c : Cause) (n : ℕ) (m : Message)
    → Ends c m
    → turn m.kind (content_to_text m.content) (loop_of c (suc n)) ≡ stop
turn-Ends c n m (by_tool is_tool ne) =
    rw is_tool (turn-stop c n (content_to_text m.content) (λ e. ne (tool-fault m is_tool ∙ e)))
turn-Ends c n m (by_human is_human unmarked) =
    rw is_human (unfold turn has_marker in ground (arith, unmarked))
turn-Ends c n m (by_system is_system unmarked) =
    rw is_system (unfold turn has_marker in ground (arith, unmarked))

scan-Ends :
    (c : Cause) (n : ℕ) (m : Message) (rest : List Message)
    → Ends c m
    → scan (loop_of c (suc n)) (m ∷ rest) ≡ some (streak_of c (suc n))
scan-Ends c n m rest h =
    scan_stop (loop_of c (suc n)) m rest (turn-Ends c n m h) ∙ unfold finish in refl

pub last?-append : (xs : List Message) (m : Message) → last? (xs ++ m ∷ []) ≡ some m
last?-append [] m = refl
last?-append (x ∷ []) m = refl
last?-append (x ∷ y ∷ xs) m = last?-append (y ∷ xs) m

last?-reverse : (m : Message) (ms : List Message) → last? (reverse (m ∷ ms)) ≡ some m
last?-reverse m ms = rw (reverse-append (m ∷ []) ms) (last?-append (reverse ms) m)

last_has_marker-reverse :
    (m : Message) (ms : List Message) → last_has_marker (reverse (m ∷ ms)) ≡ has_marker m
unfolding last_has_marker
last_has_marker-reverse m ms = rw (last?-reverse m ms, last_has_marker)

-- A run of failures with one cause, newest first, with what the model said in between.
module _ (c : Cause) (run : List Message) (continues : All (Continues c) run)
    (some_fault : 0 < faults run) where
  streak-run :
      (m : Message) (older : List Message)
      → Ends c m
      → sandbox_error_streak (reverse (run ++ m ∷ older)) ≡ some (streak_of c (faults run))
  unfolding sandbox_error_streak
  streak-run m older h =
      let size : faults run + 0 ≡ suc (faults run - 1) = omega arith in
      let same : suc (faults run - 1) ≡ faults run = omega arith in
      rw (reverse-reverse, scan-run c 0 run (m ∷ older) continues, size)
        (scan-Ends c (faults run - 1) m older h ∙ ap (λ k. some (streak_of c k)) same)

  newest_unmarked : (rest : List Message) → last_has_marker (reverse (run ++ rest)) ≡ false
  newest_unmarked rest = go_run run continues some_fault
    where
      go_run :
          (r : List Message)
          → All (Continues c) r
          → 0 < faults r
          → last_has_marker (reverse (r ++ rest)) ≡ false
      go_run [] h p = absurd (unfold faults in omega arith)
      go_run (m ∷ ms) h p = last_has_marker-reverse m (ms ++ rest) ∙ h.0.unmarked

-- If the history ends in a run of tool failures with one cause, at least one, with nothing but the
-- model's own messages in between, and the message before the run ends it, then the middleware trips
-- exactly when the run has more failures than the threshold, and reports their cause and number.
pub before_model-run :
    (threshold : ℕ) (c : Cause) (run : List Message) (m : Message) (older : List Message)
    → All (Continues c) run
    → 0 < faults run
    → Ends c m
    → before_model threshold (reverse (run ++ m ∷ older)) ≡ (
        if leb (faults run) threshold then none else some (trip_message (streak_of c (faults run))))
unfolding before_model
before_model-run threshold c run m older continues some_fault h = rw (
  newest_unmarked c run continues some_fault (m ∷ older),
  streak-run c run continues some_fault m older h,
)

trip_message-marked : (k : Streak) → has_marker (trip_message k) ≡ true
unfolding has_marker trip_message content_to_text
trip_message-marked k = is_infix-append marker _

last_has_marker-append :
    (messages : List Message) (m : Message) → last_has_marker (messages ++ m ∷ []) ≡ has_marker m
unfolding last_has_marker
last_has_marker-append messages m = rw (last?-append messages m, last_has_marker)

pub tripped-marked :
    (threshold : ℕ) (messages : List Message) (m : Message)
    → before_model threshold messages ≡ some m
    → has_marker m ≡ true
unfolding before_model
tripped-marked threshold messages m h = elim (Option-cases (sandbox_error_streak messages)) [
  | inl e ↦ ground (arith, e)
  | inr (k, e) ↦ ground (arith, e, trip_message-marked k)
]

-- Once it has tripped, with its message at the end of the history, the middleware does not trip again.
pub before_model-trip_message :
    (threshold : ℕ) (messages : List Message) (m : Message)
    → before_model threshold messages ≡ some m
    → before_model threshold (messages ++ m ∷ []) ≡ none
before_model-trip_message threshold messages m h =
    let marked : last_has_marker (messages ++ m ∷ []) ≡ true =
      last_has_marker-append messages m ∙ tripped-marked threshold messages m h in
    unfold before_model in rw marked
