-- ===== src/Queue/Tests.antt =====
-- Runs of the queue over a store of one item, and over one whose first read raises.
use loupfeed_agents.Common.{◌≡◌, refl, true, false, none, some, List, [], ◌∷◌, ◌++◌, inl, inr}
use loupfeed_agents.Json.{Value, null, str, dict, field, end, items_of, has_text}
use loupfeed_agents.Findings.Client.{not_found}
use loupfeed_agents.Queue.Store.{
  Read, item, absent, failed, Store, message, pending, read_pending, write_pending,
  queue_message_for_thread,
}
use loupfeed_agents.Queue.Blocks.{Env, text_block}
use loupfeed_agents.Queue.Check.{inject, check_message_queue_before_model}
use loupfeed_agents.Queue.Fifo.{
  Event, queued, checked, replies, left, run, IsReliable, Holds, run-replies,
}
use loupfeed_agents.Queue.Races.{queue_message-failed_read, queue_message-overlapping}
use loupfeed_agents.Queue.Delivery.{delivered, run-delivered}

-- a store of one item; the state is what the next read gives
abbrev cell : Store Read
cell = record {
  read = λ tid s. s;
  put = λ tid v s. some (item (dict v));
  delete = λ tid s. some absent;
}

cell-IsReliable : IsReliable cell "t"
cell-IsReliable = record {
  puts = λ v s. (item (dict v), refl, refl);
  deletes = λ s. (absent, refl, refl);
}

abbrev env : Env
env = record { thread = not_found; fetch_image_block = λ u. none }

abbrev events : List Event
events = queued (str "a") ∷ queued (str "b") ∷ checked env ∷ queued (str "c") ∷ []

abbrev from_dashboard : Value
from_dashboard = dict (field "source" (str "dashboard") (field "text" (str "go") end))

run-two :
    delivered (run cell "t" absent (queued from_dashboard ∷ checked env ∷ checked env ∷ [])).0
    ≡ text_block (
        str
          "[loupfeed agents Web handoff] This follow-up was sent from Web. The conversation has moved to Web, so answer in the dashboard stream with a normal assistant message. Do not call slack_thread_reply unless a later Slack message explicitly moves the conversation back to Slack.")
      ∷ text_block (str "go")
      ∷ []
unfolding run items_of inject
run-two = refl

not_a_list :
    queue_message_for_thread cell "t" (str "a") (item (dict (field "messages" null end)))
    ≡ (false, item (dict (field "messages" null end)))
unfolding queue_message_for_thread
not_a_list = refl

run-replies_example :
    ((run cell "t" absent events).0 ≡ replies [] events)
    × Holds cell "t" (run cell "t" absent events).1 (left [] events)
run-replies_example = run-replies cell "t" cell-IsReliable events absent [] refl (inr (refl, refl))

run-delivered_example :
    (delivered (run cell "t" absent (events ++ checked env ∷ [])).0
      ≡ text_block (str "a") ∷ text_block (str "b") ∷ text_block (str "c") ∷ [])
    × Holds cell "t" (run cell "t" absent (events ++ checked env ∷ [])).1 []
unfolding has_text
run-delivered_example = run-delivered cell "t" cell-IsReliable env events absent refl refl refl

queue_message-failed_read_example :
    (s' : Read) × (queue_message_for_thread cell "t" (str "a") failed ≡ (true, s'))
    × Holds cell "t" s' (str "a" ∷ [])
queue_message-failed_read_example =
    queue_message-failed_read cell "t" cell-IsReliable failed (str "a") refl

abbrev one : Read
one = item (dict (pending (message (str "q") ∷ [])))

queue_message-overlapping_example :
    ((t : Read) × (queue_message_for_thread cell "t" (str "b") one ≡ (true, t))
      × (u : Read) × (write_pending cell "t" (message (str "q") ∷ []) (str "a") t ≡ (true, u))
      × Holds cell "t" u (str "q" ∷ str "a" ∷ []))
    × ((t : Read) × (check_message_queue_before_model (some cell) "t" env one
          ≡ (inject env (message (str "q") ∷ []), t))
        × (u : Read) × (write_pending cell "t" (message (str "q") ∷ []) (str "a") t ≡ (true, u))
        × Holds cell "t" u (str "q" ∷ str "a" ∷ []))
unfolding read_pending items_of
queue_message-overlapping_example =
    queue_message-overlapping cell "t" cell-IsReliable env one (str "q" ∷ []) (str "a") (str "b")
      (message (str "q") ∷ []) refl (inl refl) refl
