-- ===== src/Schedules/Normal.antt =====
-- The normal form of a cron expression.
use loupfeed_agents.Common.{
  String, ◌≡◌, ap, ◌∙◌, Option, none, some, arith, Bool-cases, inl, inr, ◌==◌, length, join, words,
  strip, words-strip, words-join-words,
}
use loupfeed_agents.Schedules.Cron.{
  valid, checked_schedule, split_on, validate_fields, cron_field_ranges, check_schedule,
  normalize_cron_schedule,
}

checked_schedule-valid : (s t : String) (e : Option String) → checked_schedule s e ≡ valid t → t ≡ s
unfolding checked_schedule
checked_schedule-valid s t none h = ground (arith, h)
checked_schedule-valid s t (some e) h = absurd (cc h)

check_schedule-valid : (s t : String) → check_schedule s ≡ valid t → t ≡ s
unfolding check_schedule
check_schedule-valid s t h = elim (Bool-cases (length (split_on 32 s) == 5)) [
  | inl e ↦
      checked_schedule-valid s t (validate_fields (split_on 32 s) cron_field_ranges) (rw e at h)
  | inr e ↦ absurd (cc (rw e at h))
]

-- Where an expression is valid, its normal form is what its words are when they are joined by single spaces,
-- and the normal form is valid with itself as the result; it is no matter what white space stands
-- around and between the fields.
pub normalize-normalize_cron_schedule :
    (raw schedule : String)
    → normalize_cron_schedule raw ≡ valid schedule
    → (schedule ≡ join " " (words raw)) × (normalize_cron_schedule schedule ≡ valid schedule)
unfolding normalize_cron_schedule
normalize-normalize_cron_schedule raw schedule h =
    let is : schedule ≡ join " " (words (strip raw)) =
      check_schedule-valid (join " " (words (strip raw))) schedule h in
    let same : join " " (words (strip schedule)) ≡ join " " (words (strip raw)) =
      ap (join " ") (words-strip schedule ∙ ap words is ∙ words-join-words (strip raw)) in
    (is ∙ ap (join " ") (words-strip raw), ap check_schedule same ∙ h)
