-- ===== src/Schedules/Kept.antt =====
-- The keys of the cron and of the switch behind a patch.
use loupfeed_agents.Common.{
  String, ◌≡◌, refl, sym, ap, ◌∙◌, Bool, true, false, ◌||◌, not, Option, none, some, arith,
  Bool-cases, inl, inr, str_eq,
}
use loupfeed_agents.Json.{Value, str, bool, Fields, get, put, get-put, has_text, truthy}
use loupfeed_agents.Schedules.Records.{Call, returned, http_error, raised, then_call}
use loupfeed_agents.Schedules.Update.{
  UpdateBody, put_text, put_choice, put_enabled, enabled_changed, differs, needs_new_cron, is_false,
}

-- a schedule that is enabled has the id of a cron
abbrev pub is_live : Fields → Bool
is_live d = not (truthy (get "enabled" d)) || has_text (get "cron_id" d)

pub or_right : (a b : Bool) → b ≡ true → (a || b) ≡ true
or_right a b h = ground (arith, h)

pub or_left : (a b : Bool) → a ≡ true → (a || b) ≡ true
or_left a b h = ground (arith, h)

pub then_call-returned :
    {S A B : Type 0} (m : Call A × S) (f : A → S → Call B × S) (b : B) (s' : S)
    → then_call f m ≡ (returned b, s')
    → (a : A) × (t : S) × (m ≡ (returned a, t)) × (f a t ≡ (returned b, s'))
then_call-returned (returned a, t) f b s' h = (a, t, refl, h)
then_call-returned (http_error e, t) f b s' h = absurd (cc h)
then_call-returned (raised, t) f b s' h = absurd (cc h)

-- the keys that a patch leaves alone
pub put_text-get :
    (k j : String) (o : Option String) (d : Fields)
    → str_eq k j ≡ false
    → get j (put_text k o d) ≡ get j d
unfolding put_text
put_text-get k j none d ne = refl
put_text-get k j (some s) d ne = get-put k j (str s) d ∙ rw ne refl

pub put_choice-get :
    (j : String) (o : Option (String × String)) (d : Fields)
    → str_eq "effort" j ≡ false
    → str_eq "model" j ≡ false
    → get j (put_choice o d) ≡ get j d
unfolding put_choice
put_choice-get j none d e m = refl
put_choice-get j (some (model, effort)) d e m =
    get-put "effort" j (str effort) (put "model" (str model) d)
    ∙ rw e refl
    ∙ get-put "model" j (str model) d
    ∙ rw m refl

-- `enabled` behind a patch
abbrev pub enabled_of : Option Bool → Value → Value
enabled_of none v = v
enabled_of (some b) v = bool b

pub put_enabled-enabled :
    (o : Option Bool) (d : Fields)
    → get "enabled" (put_enabled o d) ≡ enabled_of o (get "enabled" d)
unfolding put_enabled
put_enabled-enabled none d = refl
put_enabled-enabled (some b) d = get-put "enabled" "enabled" (bool b) d

pub put_enabled-cron :
    (o : Option Bool) (d : Fields) → get "cron_id" (put_enabled o d) ≡ get "cron_id" d
unfolding put_enabled
put_enabled-cron none d = refl
put_enabled-cron (some b) d = get-put "enabled" "cron_id" (bool b) d

pub is_false-truthy : (v : Value) → is_false v ≡ true → truthy v ≡ false
unfolding is_false truthy
is_false-truthy (bool false) h = refl
is_false-truthy (bool true) h = absurd (cc h)
is_false-truthy v h = absurd (cc h)

pub same-truthy : (v : Value) → differs v true ≡ false → truthy v ≡ true
unfolding differs truthy
same-truthy (bool true) h = refl
same-truthy (bool false) h = absurd (cc h)
same-truthy v h = absurd (cc h)

-- what is enabled without a change was enabled before
pub enabled_before :
    (o : Option Bool) (existing : Fields)
    → enabled_changed o existing ≡ false
    → truthy (enabled_of o (get "enabled" existing)) ≡ true
    → truthy (get "enabled" existing) ≡ true
unfolding enabled_changed
enabled_before none existing same on = on
enabled_before (some true) existing same on = same-truthy (get "enabled" existing) same
enabled_before (some false) existing same on = absurd (unfold truthy in cc on)

pub kept-live :
    (body : UpdateBody) (existing updated : Fields)
    → get "cron_id" updated ≡ get "cron_id" existing
    → get "enabled" updated ≡ enabled_of body.enabled (get "enabled" existing)
    → needs_new_cron body existing updated ≡ false
    → is_live existing ≡ true
    → is_live updated ≡ true
unfolding needs_new_cron
kept-live body existing updated cron enabled kept live =
    elim (Bool-cases (truthy (get "enabled" updated))) [
      | inr off ↦ rw off refl
      | inl on ↦
          let unchanged : enabled_changed body.enabled existing ≡ false =
            ground (arith, on, kept) in
          let before : truthy (get "enabled" existing) ≡ true =
            enabled_before body.enabled existing unchanged (sym (ap truthy enabled) ∙ on) in
          let has : has_text (get "cron_id" existing) ≡ true = ground (arith, before, live) in
          ground (arith, ap has_text cron ∙ has)
    ]
