-- ===== src/Schedules/Records.antt =====
-- The stored record of a schedule, who owns it, and the calls that the operations make.
use loupfeed_agents.Common.{
  String, Bool, ◌&&◌, ◌||◌, Option, none, some, if◌then◌else◌, nonempty, strip,
}
use loupfeed_agents.Json.{Value, str, Fields, get, put, as_dict, eq_text, has_text}

-- what a call returns: a value, an `HTTPException` with its status, or another exception
pub data Call (A : Type 0) : Type 0 where
  returned : A → Call A
  http_error : String → Call A
  raised : Call A

module _ {S : Type 0} where
  abbrev pub then_call : {A B : Type 0} → (A → S → Call B × S) → Call A × S → Call B × S
  then_call f (returned a, s) = f a s
  then_call f (http_error e, s) = (http_error e, s)
  then_call f (raised, s) = (raised, s)

  infixl 5 ◌>>=◌
  abbrev pub ◌>>=◌ : {A B : Type 0} → (S → Call A × S) → (A → S → Call B × S) → S → Call B × S
  ◌>>=◌ m f s = then_call f (m s)

  abbrev pub pure : {A : Type 0} → A → S → Call A × S
  pure a s = (returned a, s)

  abbrev pub fail : {A : Type 0} → String → S → Call A × S
  fail e s = (http_error e, s)

-- The store and the crons of the agent server, the time, and `repo_config_for_user` for the login
-- of the request. `create_cron` is
-- `crons.create` with the arguments that `_create_cron` makes of the record; it answers a JSON value.
pub record Server (S : Type 0) : Type 0 where
  pub get_item : String → S → Call (Option Value) × S
  pub put_item : String → Fields → S → Call (Unit {0}) × S
  pub delete_item : String → S → Call (Unit {0}) × S
  pub create_cron : Fields → S → Call Value × S
  pub delete_cron : String → S → Call (Unit {0}) × S
  pub now_iso : S → String
  pub repo_config_for_user : String → S → Call Value × S

-- `_user_owns_schedule`; `lower` is `str.lower`, and an empty email is none
unfoldable pub user_owns_schedule : (String → String) → Fields → String → String → Bool
unfolding get eq_text strip
user_owns_schedule lower record_ login email =
    eq_text (get "created_by" record_) login
    || (nonempty email && eq_text (get "user_email" record_) (lower (strip email)))

dict_in : Option Value → Option Fields
unfolding as_dict
dict_in none = none
dict_in (some v) = as_dict v

module _ {S : Type 0} (server : Server S) where
  -- `get_agent_schedule`
  unfoldable pub get_agent_schedule : String → S → Call (Option Fields) × S
  unfolding dict_in
  get_agent_schedule schedule_id = do item ← server.get_item schedule_id; pure (dict_in item)

  -- `_put_value`, for a record with the id
  unfoldable pub put_value : String → Fields → S → Call Fields × S
  unfolding put
  put_value schedule_id record_ s =
      let stamped = put "updated_at" (str (server.now_iso s)) record_ in
      (server.put_item schedule_id stamped >>= λ u. pure stamped) s

  -- a failure of the deletion is swallowed
  quietly : Call (Unit {0}) × S → Call (Unit {0}) × S
  quietly (c, s) = (returned tt, s)

  -- `_delete_cron`
  unfoldable pub delete_cron : Value → S → Call (Unit {0}) × S
  unfolding quietly has_text
  delete_cron (str cron_id) s =
      if nonempty cron_id then quietly (server.delete_cron cron_id s) else (returned tt, s)
  delete_cron v s = (returned tt, s)

  owned : (String → String) → Option Fields → String → String → S → Call Fields × S
  unfolding user_owns_schedule
  owned lower none login email = fail "schedule not found"
  owned lower (some r) login email =
      if user_owns_schedule lower r login email then pure r else fail "schedule not found"

  -- the record with the id, where the user owns it; an empty record is none
  unfoldable pub owned_schedule : (String → String) → String → String → String → S → Call Fields × S
  unfolding get_agent_schedule owned
  owned_schedule lower schedule_id login email = do
    existing ← get_agent_schedule schedule_id
    owned lower existing login email

  -- `delete_agent_schedule`
  unfoldable pub delete_agent_schedule :
      (String → String) → String → String → String → S → Call (Unit {0}) × S
  unfolding owned_schedule delete_cron get
  delete_agent_schedule lower schedule_id login email = do
    existing ← owned_schedule lower schedule_id login email
    deleted ← delete_cron (get "cron_id" existing)
    server.delete_item schedule_id
