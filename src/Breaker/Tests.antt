-- ===== src/Breaker/Tests.antt =====
-- The circuit breaker on small histories, and the theorems at them.
use loupfeed_agents.Common.{
  ◌≡◌, refl, none, some, List, [], ◌∷◌, ◌++◌, reverse, All, arith, inl, inr, if◌then◌else◌, leb,
  strip_prefix, is_infix,
}
use loupfeed_agents.Json.{pos, Fields, field, end, dict, str, int}
use loupfeed_agents.Breaker.Message.{
  tool, human, other, Message, text, blocks, Block, content_to_text, extract_sandbox_id,
}
use loupfeed_agents.Breaker.Streak.{before_model, trip_message, client_error, has_marker}
use loupfeed_agents.Breaker.Runs.{
  failure, Continues, Ends, by_human, faults, fault, streak_of, before_model-run,
  before_model-trip_message,
}
use loupfeed_agents.Breaker.Target.{get_github_target}
use loupfeed_agents.Breaker.Hooks.{Tokens, after_agent_posts}
use loupfeed_agents.Breaker.Notify.{Notified, after_agent_posts-before_model}

abbrev failed : Message
failed = record { kind = tool; content = text "SandboxClientError: sb-1a-2 is gone" }

abbrev says : Message
says = record { kind = other; content = blocks (Block.part (some "retrying") ∷ []) }

abbrev asks : Message
asks = record { kind = human; content = text "please fix the build" }

abbrev run : List Message
run = failed ∷ says ∷ failed ∷ failed ∷ []

extract_id : extract_sandbox_id "xsb-0 (sb-a--) sb-b" ≡ some "sb-a"
unfolding extract_sandbox_id strip_prefix
extract_id = refl

extract_shorter : extract_sandbox_id "sb-a-b_" ≡ some "sb-a-"
unfolding extract_sandbox_id strip_prefix
extract_shorter = refl

failed-Continues : Continues (failure "sb-1a-2") failed
unfolding has_marker fault extract_sandbox_id strip_prefix is_infix
failed-Continues = record { unmarked = refl; role = inl refl }

says-Continues : Continues (failure "sb-1a-2") says
unfolding has_marker is_infix strip_prefix
says-Continues = record { unmarked = refl; role = inr refl }

run-Continues : All (Continues (failure "sb-1a-2")) run
run-Continues = (failed-Continues, (says-Continues, (failed-Continues, (failed-Continues, tt))))

asks-Ends : Ends (failure "sb-1a-2") asks
unfolding has_marker is_infix strip_prefix
asks-Ends = by_human refl refl

run-faults : faults run ≡ 3
unfolding faults extract_sandbox_id strip_prefix is_infix content_to_text
run-faults = refl

before_model-run_example : before_model 2 (reverse (run ++ asks ∷ [])) ≡ (
    if leb (faults run) 2
    then none
    else some (trip_message (streak_of (failure "sb-1a-2") (faults run))))
before_model-run_example =
    before_model-run 2 (failure "sb-1a-2") run asks [] run-Continues (rw run-faults (omega arith))
      asks-Ends

abbrev history : List Message
history = asks ∷ failed ∷ failed ∷ says ∷ failed ∷ []

abbrev tripped : Message
tripped = trip_message (record { reason = client_error; sandbox_id = some "sb-1a-2"; count = 3 })

history-trips : before_model 2 history ≡ some tripped
unfolding before_model extract_sandbox_id strip_prefix is_infix
history-trips = refl

before_model-trip_message_example : before_model 2 (history ++ tripped ∷ []) ≡ none
before_model-trip_message_example = before_model-trip_message 2 history tripped history-trips

abbrev slack_run : Fields
slack_run =
    field "slack_thread" (dict (field "channel_id" (str "C1") (field "thread_ts" (str "17.1") end)))
      end

abbrev tokens : Tokens
tokens = record { run = ""; app = "t" }

after_agent_posts-before_model_example :
    Notified tokens slack_run (after_agent_posts tokens (some slack_run) (history ++ tripped ∷ []))
after_agent_posts-before_model_example =
    after_agent_posts-before_model 2 history tripped tokens slack_run history-trips

-- The guard on empty names does not reach the repository that the item names.
abbrev unnamed_target : Fields
unnamed_target = field "repo" (dict (field "owner" (str "o") (field "name" (str "r") end))) (
    field "github_pr_or_issue"
      (dict (
        field "number" (int (pos 7))
          (field "repo" (dict (field "owner" (str "") (field "name" (str "") end))) end)))
      end)

unnamed_target_passes :
    get_github_target unnamed_target ≡ some (record { owner = ""; name = "" }, pos 7)
unfolding get_github_target
unnamed_target_passes = refl
