-- ===== src/Schedules/Update.antt =====
-- `update_agent_schedule`: the patch, the cron, and the write. `_normalize_model_choice` is a parameter.
use loupfeed_agents.Common.{
  String, Bool, true, false, ◌&&◌, ◌||◌, not, Option, none, some, if◌then◌else◌, nonempty, strip,
  str_take, [], ◌∷◌,
}
use loupfeed_agents.Diff.Lines.{splitlines}
use loupfeed_agents.Json.{
  Value, null, str, bool, as_dict, as_str, Fields, get, put, eq_text, truthy, text_or,
}
use loupfeed_agents.Schedules.Records.{
  Call, returned, http_error, raised, ◌>>=◌, pure, Server, put_value, delete_cron, owned_schedule,
}

-- `ScheduleUpdateBody`, with the schedule in its normal form
pub record UpdateBody : Type 0 where
  pub prompt : Option String
  pub schedule : Option String
  pub name : Option String
  pub repo : Option String
  pub model_id : Option String
  pub effort : Option String
  pub enabled : Option Bool

-- `_derive_name`: none where it raises, as there is no line
unfoldable pub derive_name : String → Option String
unfolding splitlines strip
derive_name prompt = elim (splitlines (strip prompt)) [
  | [] ↦ none
  | line ∷ lines ↦
      let name = str_take 80 line in some (if nonempty name then name else "Scheduled agent")
]

unfoldable pub put_text : String → Option String → Fields → Fields
unfolding put
put_text k none d = d
put_text k (some s) d = put k (str s) d

unfoldable pub stripped : Option String → Option String
unfolding strip
stripped none = none
stripped (some s) = some (strip s)

unfoldable pub put_choice : Option (String × String) → Fields → Fields
unfolding put
put_choice none d = d
put_choice (some (model, effort)) d = put "effort" (str effort) (put "model" (str model) d)

unfoldable pub put_enabled : Option Bool → Fields → Fields
unfolding put
put_enabled none d = d
put_enabled (some b) d = put "enabled" (bool b) d

-- the prompt that the name is derived from
unfoldable pub prompt_of : Option String → Fields → String
unfolding text_or get
prompt_of none existing = text_or (get "prompt" existing) ""
prompt_of (some p) existing = p

-- `v != b` for a Boolean `b`
unfoldable pub differs : Value → Bool → Bool
differs (bool a) b = (a && not b) || (not a && b)
differs v b = true

unfoldable pub schedule_changed : Option String → Fields → Bool
unfolding eq_text get
schedule_changed none existing = false
schedule_changed (some s) existing = not (eq_text (get "schedule" existing) s)

unfoldable pub enabled_changed : Option Bool → Fields → Bool
unfolding differs get
enabled_changed none existing = false
enabled_changed (some b) existing = differs (get "enabled" existing) b

-- `needs_new_cron`
unfoldable pub needs_new_cron : UpdateBody → Fields → Fields → Bool
unfolding truthy get schedule_changed enabled_changed
needs_new_cron body existing updated =
    truthy (get "enabled" updated)
    && (schedule_changed body.schedule existing || enabled_changed body.enabled existing)

-- `v is False`
unfoldable pub is_false : Value → Bool
is_false (bool b) = not b
is_false v = false

module _ {S : Type 0} (server : Server S)
    (model_choice : Option String → Option String → Option (String × String)) where
  -- the name: none where it is not patched
  derived : Option String → S → Call (Option String) × S
  derived none s = (raised, s)
  derived (some name) s = (returned (some name), s)

  unfoldable pub patched_name : Option String → String → S → Call (Option String) × S
  unfolding strip derive_name derived
  patched_name none prompt = pure none
  patched_name (some name) prompt =
      if nonempty (strip name) then pure (some (strip name)) else derived (derive_name prompt)

  unfoldable pub patched_repo : Option String → Fields → S → Call Fields × S
  unfolding put
  patched_repo none d = pure d
  patched_repo (some repo) d = do
    config ← server.repo_config_for_user repo
    pure (put "repo" config d)

  -- the record with the patch; the keys of the cron are not in it
  unfoldable pub patched : UpdateBody → Fields → S → Call Fields × S
  unfolding put_text stripped patched_name prompt_of patched_repo put_choice put_enabled
  patched body existing = do
    name ← patched_name body.name (prompt_of (stripped body.prompt) existing)
    with_repo ← patched_repo body.repo (
        put_text "name" name
          (put_text "schedule" body.schedule (put_text "prompt" (stripped body.prompt) existing)))
    pure (put_enabled body.enabled (put_choice (model_choice body.model_id body.effort) with_repo))

  unfoldable pub created : Call String × S → Call String × S
  created (returned id, s) = (returned id, s)
  created (http_error e, s) = (http_error "failed to create schedule cron", s)
  created (raised, s) = (http_error "failed to create schedule cron", s)

  -- the id in the answer of `crons.create`; none raises
  unfoldable pub cron_id_of : Value → Option String
  unfolding as_dict as_str get
  cron_id_of cron = elim (as_dict cron) [
    | none ↦ none
    | some d ↦ elim (as_str (get "cron_id" d)) [
      | none ↦ none
      | some id ↦ if nonempty id then some id else none
    ]
  ]

  unfoldable pub checked_cron : Option String → S → Call String × S
  checked_cron none s = (raised, s)
  checked_cron (some id) s = (returned id, s)

  -- `_create_cron`
  unfoldable pub create_cron : Fields → S → Call String × S
  unfolding cron_id_of checked_cron
  create_cron record_ = do cron ← server.create_cron record_; checked_cron (cron_id_of cron)

  -- a new cron in place of the old one
  unfoldable pub new_cron : Fields → Fields → S → Call Fields × S
  unfolding created create_cron delete_cron get put
  new_cron existing updated = do
    cron_id ← λ s. created (create_cron updated s)
    deleted ← delete_cron server (get "cron_id" existing)
    pure (put "cron_id" (str cron_id) updated)

  unfoldable pub drop_cron : Fields → Fields → S → Call Fields × S
  unfolding delete_cron get put
  drop_cron existing updated = do
    deleted ← delete_cron server (get "cron_id" existing)
    pure (put "cron_id" null updated)

  unfoldable pub with_cron : UpdateBody → Fields → Fields → S → Call Fields × S
  unfolding needs_new_cron new_cron drop_cron is_false truthy get
  with_cron body existing updated =
      if needs_new_cron body existing updated
      then new_cron existing updated
      else if is_false (get "enabled" updated) && truthy (get "cron_id" existing)
      then drop_cron existing updated
      else pure updated

  -- `update_agent_schedule`; the record that is stored, of which the caller gets a summary
  unfoldable pub update_agent_schedule :
      (String → String) → String → String → UpdateBody → String → S → Call Fields × S
  unfolding owned_schedule patched with_cron put_value
  update_agent_schedule lower schedule_id login body email = do
    existing ← owned_schedule server lower schedule_id login email
    updated ← patched body existing
    settled ← with_cron body existing updated
    put_value server schedule_id settled
