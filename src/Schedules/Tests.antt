-- ===== src/Schedules/Tests.antt =====
-- Cron expressions, valid and not, and a schedule that is changed.
use loupfeed_agents.Common.{String, ◌≡◌, refl, true, Option, none, some, join, words}
use loupfeed_agents.Json.{null, bool, str, dict, Fields, field, end, has_text, truthy}
use loupfeed_agents.Schedules.Cron.{valid, invalid, normalize_cron_schedule}
use loupfeed_agents.Schedules.Normal.{normalize-normalize_cron_schedule}
use loupfeed_agents.Schedules.Records.{returned, Server, owned_schedule, put_value}
use loupfeed_agents.Schedules.Update.{UpdateBody, derive_name, update_agent_schedule}
use loupfeed_agents.Schedules.Kept.{is_live}
use loupfeed_agents.Schedules.Live.{update_agent_schedule-is_live}

spaced : normalize_cron_schedule "  */5  0-6 1,15 *  1-5 " ≡ valid "*/5 0-6 1,15 * 1-5"
unfolding normalize_cron_schedule
spaced = refl

descending : normalize_cron_schedule "0 9-5 * * *" ≡ invalid "cron ranges must be ascending"
unfolding normalize_cron_schedule
descending = refl

outside : normalize_cron_schedule "0 24 * * *" ≡ invalid "cron value 24 outside allowed range 0-23"
unfolding normalize_cron_schedule
outside = refl

normalize-normalize_cron_schedule_example :
    ("0 9 * * 1-5" ≡ join " " (words " 0 9  * * 1-5"))
    × (normalize_cron_schedule "0 9 * * 1-5" ≡ valid "0 9 * * 1-5")
unfolding normalize_cron_schedule
normalize-normalize_cron_schedule_example =
    normalize-normalize_cron_schedule " 0 9  * * 1-5" "0 9 * * 1-5" refl

-- a prompt of white space alone has no name
nameless : derive_name "  " ≡ none
unfolding derive_name
nameless = refl

-- the server of one schedule
abbrev server : Server Fields
server = record {
  get_item = λ id s. (returned (some (dict s)), s);
  put_item = λ id d s. (returned tt, d);
  delete_item = λ id s. (returned tt, end);
  create_cron = λ d s. (returned (dict (field "cron_id" (str "c_2") end)), s);
  delete_cron = λ id s. (returned tt, s);
  now_iso = λ s. "now";
  repo_config_for_user = λ repo s. (returned null, s);
}

abbrev no_choice : Option String → Option String → Option (String × String)
no_choice model effort = none

abbrev as_is : String → String
as_is s = s

abbrev before : Fields
before = field "created_by" (str "ann") (
    field "schedule" (str "0 9 * * *")
      (field "enabled" (bool true) (field "cron_id" (str "c_1") end)))

abbrev hourly : UpdateBody
hourly = record {
  prompt = none;
  schedule = some "0 * * * *";
  name = none;
  repo = none;
  model_id = none;
  effort = none;
  enabled = none;
}

abbrev after : Fields
after = field "created_by" (str "ann") (
    field "schedule" (str "0 * * * *") (
      field "enabled" (bool true)
        (field "cron_id" (str "c_2") (field "updated_at" (str "now") end))))

read_one : owned_schedule server as_is "s" "ann" "" before ≡ (returned before, before)
unfolding owned_schedule
read_one = refl

updated_one :
    update_agent_schedule server no_choice as_is "s" "ann" hourly "" before
    ≡ (returned after, after)
unfolding update_agent_schedule
updated_one = refl

update_agent_schedule-is_live_example :
    (u : Fields) × (d : Fields) × (put_value server "s" d u ≡ (returned after, after))
    × (is_live after ≡ true)
unfolding owned_schedule has_text truthy
update_agent_schedule-is_live_example =
    update_agent_schedule-is_live server no_choice as_is "s" "ann" hourly "" before after before
      before after read_one refl updated_one
