-- ===== src/Schedules/Live.antt =====
-- An enabled schedule has a cron.
use loupfeed_agents.Common.{
  String, ◌≡◌, refl, sym, ap, ◌∙◌, Bool, true, false, ◌&&◌, ◌||◌, not, Option, none, some, arith,
  if◌then◌else◌, nonempty, str_eq,
}
use loupfeed_agents.Json.{
  Value, null, str, Fields, get, put, get-put, has_text, truthy, as_dict, as_str,
}
use loupfeed_agents.Schedules.Records.{
  Call, returned, http_error, raised, pure, Server, put_value, delete_cron, owned_schedule,
}
use loupfeed_agents.Schedules.Update.{
  UpdateBody, put_text, put_choice, put_enabled, needs_new_cron, is_false, patched_name, stripped,
  prompt_of, patched_repo, patched, created, cron_id_of, checked_cron, create_cron, new_cron,
  drop_cron, with_cron, update_agent_schedule,
}
use loupfeed_agents.Schedules.Kept.{
  is_live, or_right, or_left, then_call-returned, put_text-get, put_choice-get, enabled_of,
  put_enabled-enabled, put_enabled-cron, is_false-truthy, kept-live,
}

module _ {S : Type 0} (server : Server S)
    (model_choice : Option String → Option String → Option (String × String)) where
  returned-inj : (a b : Fields) (s t : S) → pure a s ≡ (returned b, t) → b ≡ a
  returned-inj a b s t h = ground (arith, h)

  created-returned :
      (m : Call String × S) (id : String) (t : S)
      → created server model_choice m ≡ (returned id, t)
      → m ≡ (returned id, t)
  unfolding created
  created-returned (returned i, s) id t h = h
  created-returned (http_error e, s) id t h = absurd (cc h)
  created-returned (raised, s) id t h = absurd (cc h)

  nonempty-id :
      (b : Bool) (id i : String)
      → nonempty id ≡ b
      → (if b then some id else none) ≡ some i
      → nonempty i ≡ true
  nonempty-id true id i h e = ap nonempty (sym (ground (arith, e))) ∙ h
  nonempty-id false id i h e = absurd (cc e)

  cron_id_of-nonempty :
      (v : Value) (id : String) → cron_id_of server model_choice v ≡ some id → nonempty id ≡ true
  unfolding cron_id_of
  cron_id_of-nonempty v id h = in_dict (as_dict v) h
    where
      in_text :
          (o : Option String)
          → (elim o [ none ↦ none | some i ↦ if nonempty i then some i else none ]) ≡ some id
          → nonempty id ≡ true
      in_text none h = absurd (cc h)
      in_text (some i) h = nonempty-id (nonempty i) i id refl h

      in_dict :
          (o : Option Fields)
          → (elim o [
            | none ↦ none
            | some d ↦ elim (as_str (get "cron_id" d)) [
              | none ↦ none
              | some i ↦ if nonempty i then some i else none
            ]
          ])
            ≡ some id
          → nonempty id ≡ true
      in_dict none h = absurd (cc h)
      in_dict (some d) h = in_text (as_str (get "cron_id" d)) h

  -- The guard of `_create_cron`: an id that it returns is not empty.
  create_cron-nonempty :
      (d : Fields) (s : S) (id : String) (t : S)
      → create_cron server model_choice d s ≡ (returned id, t)
      → nonempty id ≡ true
  unfolding create_cron checked_cron
  create_cron-nonempty d s id t run =
      let made = then_call-returned (server.create_cron d s) _ id t run in
      checked (cron_id_of server model_choice made.0) made.0 refl made.1 made.3
    where
      checked :
          (o : Option String) (v : Value)
          → cron_id_of server model_choice v ≡ o
          → (u : S) → checked_cron server model_choice o u ≡ (returned id, t)
          → nonempty id ≡ true
      checked none v e u h = absurd (cc h)
      checked (some i) v e u h =
          let same : i ≡ id = ground (arith, h) in
          ap nonempty (sym same) ∙ cron_id_of-nonempty v i e

  new_cron-live :
      (existing updated r : Fields) (s s' : S)
      → new_cron server model_choice existing updated s ≡ (returned r, s')
      → is_live r ≡ true
  unfolding new_cron has_text
  new_cron-live existing updated r s s' run =
      let made =
        then_call-returned (created server model_choice (create_cron server model_choice updated s))
          _ r s' run in
      let dropped =
        then_call-returned (delete_cron server (get "cron_id" existing) made.1) _ r s' made.3 in
      let is : r ≡ put "cron_id" (str made.0) updated =
        returned-inj (put "cron_id" (str made.0) updated) r dropped.1 s' dropped.3 in
      let there =
        create_cron-nonempty updated s made.0 made.1
          (created-returned (create_cron server model_choice updated s) made.0 made.1 made.2) in
      ap is_live is
      ∙ or_right (not (truthy (get "enabled" (put "cron_id" (str made.0) updated)))) _
          (ap has_text (get-put "cron_id" "cron_id" (str made.0) updated) ∙ there)

  drop_cron-live :
      (existing updated r : Fields) (s s' : S)
      → is_false (get "enabled" updated) ≡ true
      → drop_cron server model_choice existing updated s ≡ (returned r, s')
      → is_live r ≡ true
  unfolding drop_cron
  drop_cron-live existing updated r s s' off run =
      let dropped = then_call-returned (delete_cron server (get "cron_id" existing) s) _ r s' run in
      let is : r ≡ put "cron_id" null updated =
        returned-inj (put "cron_id" null updated) r dropped.1 s' dropped.3 in
      ap is_live is
      ∙ or_left _ (has_text (get "cron_id" (put "cron_id" null updated))) (
          ap (λ (v : Value). not (truthy v)) (get-put "cron_id" "enabled" null updated)
          ∙ ap not (is_false-truthy (get "enabled" updated) off))

  with_cron-live :
      (body : UpdateBody) (existing updated r : Fields) (s s' : S)
      → get "cron_id" updated ≡ get "cron_id" existing
      → get "enabled" updated ≡ enabled_of body.enabled (get "enabled" existing)
      → is_live existing ≡ true
      → with_cron server model_choice body existing updated s ≡ (returned r, s')
      → is_live r ≡ true
  unfolding with_cron
  with_cron-live body existing updated r s s' cron enabled live run =
      first (needs_new_cron body existing updated) refl run
    where
      second :
          (b : Bool)
          → (is_false (get "enabled" updated) && truthy (get "cron_id" existing)) ≡ b
          → needs_new_cron body existing updated ≡ false
          → (if b then drop_cron server model_choice existing updated else pure updated) s
            ≡ (returned r, s')
          → is_live r ≡ true
      second true e kept run = drop_cron-live existing updated r s s' (ground (arith, e)) run
      second false e kept run =
          ap is_live (returned-inj updated r s s' run)
          ∙ kept-live body existing updated cron enabled kept live

      first :
          (b : Bool)
          → needs_new_cron body existing updated ≡ b
          → (if b
                then new_cron server model_choice existing updated
                else if is_false (get "enabled" updated) && truthy (get "cron_id" existing)
                then drop_cron server model_choice existing updated
                else pure updated)
              s
            ≡ (returned r, s')
          → is_live r ≡ true
      first true e run = new_cron-live existing updated r s s' run
      first false e run =
          second (is_false (get "enabled" updated) && truthy (get "cron_id" existing)) refl e run

  patched_repo-get :
      (j : String) (o : Option String) (d r : Fields) (s s' : S)
      → str_eq "repo" j ≡ false
      → patched_repo server model_choice o d s ≡ (returned r, s')
      → get j r ≡ get j d
  unfolding patched_repo
  patched_repo-get j none d r s s' ne run = ap (get j) (returned-inj d r s s' run)
  patched_repo-get j (some repo) d r s s' ne run =
      let config = then_call-returned (server.repo_config_for_user repo s) _ r s' run in
      ap (get j) (returned-inj (put "repo" config.0 d) r config.1 s' config.3)
      ∙ get-put "repo" j config.0 d
      ∙ rw ne refl

  texts-get :
      (j : String) (name schedule prompt : Option String) (d : Fields)
      → str_eq "name" j ≡ false
      → str_eq "schedule" j ≡ false
      → str_eq "prompt" j ≡ false
      → get j (put_text "name" name (put_text "schedule" schedule (put_text "prompt" prompt d)))
        ≡ get j d
  texts-get j name schedule prompt d n s p =
      put_text-get "name" j name (put_text "schedule" schedule (put_text "prompt" prompt d)) n
      ∙ put_text-get "schedule" j schedule (put_text "prompt" prompt d) s
      ∙ put_text-get "prompt" j prompt d p

  patched-keys :
      (body : UpdateBody) (existing r : Fields) (s s' : S)
      → patched server model_choice body existing s ≡ (returned r, s')
      → (get "cron_id" r ≡ get "cron_id" existing)
        × (get "enabled" r ≡ enabled_of body.enabled (get "enabled" existing))
  unfolding patched
  patched-keys body existing r s s' run =
      let prompt = stripped body.prompt in
      let named =
        then_call-returned
          (patched_name server model_choice body.name (prompt_of prompt existing) s) _ r s' run in
      let texts =
        put_text "name" named.0
          (put_text "schedule" body.schedule (put_text "prompt" prompt existing)) in
      let located =
        then_call-returned (patched_repo server model_choice body.repo texts named.1) _ r s'
          named.3 in
      let d = located.0 in
      let choice = model_choice body.model_id body.effort in
      let is : r ≡ put_enabled body.enabled (put_choice choice d) =
        returned-inj (put_enabled body.enabled (put_choice choice d)) r located.1 s' located.3 in
      (
        ap (get "cron_id") is
            ∙ put_enabled-cron body.enabled (put_choice choice d)
            ∙ put_choice-get "cron_id" choice d refl refl
            ∙ patched_repo-get "cron_id" body.repo texts d named.1 located.1 refl located.2
            ∙ texts-get "cron_id" named.0 body.schedule prompt existing refl refl refl,
        ap (get "enabled") is
            ∙ put_enabled-enabled body.enabled (put_choice choice d)
            ∙ ap (enabled_of body.enabled) (
                put_choice-get "enabled" choice d refl refl
                ∙ patched_repo-get "enabled" body.repo texts d named.1 located.1 refl located.2
                ∙ texts-get "enabled" named.0 body.schedule prompt existing refl refl refl),
      )

  put_value-live :
      (schedule_id : String) (d r : Fields) (s s' : S)
      → put_value server schedule_id d s ≡ (returned r, s')
      → is_live d ≡ true
      → is_live r ≡ true
  unfolding put_value
  put_value-live schedule_id d r s s' run live =
      let v = str (server.now_iso s) in
      let stored =
        then_call-returned (server.put_item schedule_id (put "updated_at" v d) s) _ r s' run in
      ap is_live (returned-inj (put "updated_at" v d) r stored.1 s' stored.3)
      ∙ ap (λ (x : Value). not (truthy x) || has_text (get "cron_id" (put "updated_at" v d)))
          (get-put "updated_at" "enabled" v d)
      ∙ ap (λ (x : Value). not (truthy (get "enabled" d)) || has_text x)
          (get-put "updated_at" "cron_id" v d)
      ∙ live

  -- An update that returns, of a schedule that has a cron if it is enabled,
  -- has found the schedule in the store for its owner, and stores one that has a cron if it is enabled, whatever
  -- the body changes.
  pub update_agent_schedule-is_live :
      (lower : String → String) (schedule_id login : String) (body : UpdateBody) (email : String)
      (existing r : Fields) (s t s' : S)
      → owned_schedule server lower schedule_id login email s ≡ (returned existing, t)
      → is_live existing ≡ true
      → update_agent_schedule server model_choice lower schedule_id login body email s
        ≡ (returned r, s')
      → (u : S) × (d : Fields) × (put_value server schedule_id d u ≡ (returned r, s'))
        × (is_live r ≡ true)
  unfolding update_agent_schedule
  update_agent_schedule-is_live lower schedule_id login body email existing r s t s' read live run =
      let found =
        then_call-returned (owned_schedule server lower schedule_id login email s) _ r s' run in
      let same : existing ≡ found.0 = ground (arith, read, found.2) in
      let was_live = ap is_live (sym same) ∙ live in
      let changed =
        then_call-returned (patched server model_choice body found.0 found.1) _ r s' found.3 in
      let keys = patched-keys body found.0 changed.0 found.1 changed.1 changed.2 in
      let settled =
        then_call-returned (with_cron server model_choice body found.0 changed.0 changed.1) _ r s'
          changed.3 in
      let settled_live =
        with_cron-live body found.0 changed.0 settled.0 changed.1 settled.1 keys.0 keys.1 was_live
          settled.2 in
      (
        settled.1,
        settled.0,
        settled.3,
        put_value-live schedule_id settled.0 r settled.1 s' settled.3 settled_live,
      )
