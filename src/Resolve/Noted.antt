-- ===== src/Resolve/Noted.antt =====
-- What a success of `update_finding` that resolves or dismisses a finding has stored, on both ways:
-- through the review thread, and directly.
use loupfeed_agents.Common.{
  ℕ, String, ◌≡◌, refl, sym, ap, subst, ◌∙◌, Bool, true, false, Option, none, some, List, arith,
  if◌then◌else◌, inl, inr, eq_iff, str_eq, Bool-cases, nonempty, strip, strip-strip,
}
use loupfeed_agents.Json.{Value, Fields, get, has, update, truthy, dict}
use loupfeed_agents.Findings.Client.{Client, IsMerging}
use loupfeed_agents.Findings.Mutate.{
  Result, ok, thread_missing, raised, then_run, pure, list_findings,
}
use loupfeed_agents.Findings.Update.{fields_edit, update_finding_fields}
use loupfeed_agents.Findings.Thread.{get_finding, first_with}
use loupfeed_agents.Findings.Found.{then_run-ok, get_finding-fetch}
use loupfeed_agents.Findings.Operations.{get-update_other}
use loupfeed_agents.Resolve.Notes.{normalize_note}
use loupfeed_agents.Resolve.GitHub.{GitHub, EmitsApart}
use loupfeed_agents.Resolve.Tool.{
  Resolution, refused, resolved, gone, is_terminal, resolve_finding_thread,
}
use loupfeed_agents.Resolve.Settled.{update_fields-Found, edited-some}
use loupfeed_agents.Resolve.Stored.{IsSettled, Left, resolve_finding_thread-Left, branch-ok}
use loupfeed_agents.Resolve.Update.{
  UpdateArgs, Update, rejected, suggestion_rejected, updated, resolving, update_error, updates_of,
  without_resolution, delegates, outcome, wrote, write_updates, after_resolution, delegated, change,
  apply_updates, attempt, text_in, unless, update_finding, confirmed, is_open, is_none, caught,
  suggestion_dropped,
}
use loupfeed_agents.Resolve.Updates.{
  updates_of-IsDict, updates_of-id, update-updates_of, without_resolution-has,
}

if_some : (b : Bool) (x k : String) → (if b then some x else none) ≡ some k → (b ≡ true) × (x ≡ k)
if_some b x k h = ground (arith, h)

normalize_note-normalize_note :
    (note : Option String) (kept : String)
    → normalize_note note ≡ some kept
    → normalize_note (some kept) ≡ some kept
unfolding normalize_note
normalize_note-normalize_note none kept h = absurd (cc h)
normalize_note-normalize_note (some n) kept h =
    let is = if_some (nonempty (strip n)) (strip n) kept h in
    let again : strip kept ≡ kept = ap strip (sym is.1) ∙ strip-strip n ∙ is.1 in
    let full : nonempty kept ≡ true = ap nonempty (sym is.1) ∙ is.0 in rw again (rw full refl)

some-inj : {A : Type 0} {x y : A} → some x ≡ some y → x ≡ y
some-inj {A} {x} {y} h = ground (arith, h)

some-updated :
    {S : Type 0} (f f' : Fields) (b d : Bool) (s s' : S)
    → ◌≡◌ {A = Result Update × S} (ok (updated (some f) b), s) (ok (updated (some f') d), s')
    → some f ≡ some f'
some-updated f f' b d s s' h = ground (arith, h)

updated-inj :
    {S : Type 0} (o : Option Fields) (f' : Fields) (b d : Bool) (s s' : S)
    → ◌≡◌ {A = Result Update × S} (ok (updated o b), s) (ok (updated (some f') d), s')
    → (o ≡ some f') × (s ≡ s')
updated-inj o f' b d s s' h = ground (arith, h)

read_back :
    {S : Type 0} (o : Option Fields) (f : Fields) (s : S)
    → ◌≡◌ {A = Result (Option Fields) × S} (ok o, s) (ok (some f), s)
    → o ≡ some f
read_back o f s h = ground (arith, h)

not_updated :
    {S : Type 0} (b : Bool) (e : String) (o : Option Fields) (d : Bool) (s s' : S)
    → ◌≡◌ {A = Result Update × S}
        (ok (if b then suggestion_rejected else rejected e), s)
        (ok (updated o d), s')
    → ⊥
not_updated true e o d s s' h = cc h
not_updated false e o d s s' h = cc h

not_open : (status : Option String) → resolving status ≡ true → is_open status ≡ false
unfolding resolving is_open
not_open none h = refl
not_open (some s) h = elim (Bool-cases (str_eq s "open")) [
  | inl e ↦
      let same : s ≡ "open" = (eq_iff s "open").0 e in
      let ends : resolving (some "open") ≡ true =
        subst (λ (t : String). resolving (some t) ≡ true) same h in
      absurd (cc ends)
  | inr e ↦ e
]

is_none-some : (o : Option String) → is_none o ≡ false → (s : String) × (o ≡ some s)
unfolding is_none
is_none-some none h = absurd (cc h)
is_none-some (some s) h = (s, refl)

-- A resolution that passes the checks has a note.
update_error-note :
    (a : UpdateArgs)
    → update_error a ≡ none
    → resolving a.new_status ≡ true
    → (note : String) × (normalize_note a.note ≡ some note)
update_error-note a h r = is_none-some (normalize_note a.note) (checked a h r)
  where
    checked :
        (a : UpdateArgs)
        → update_error a ≡ none
        → resolving a.new_status ≡ true
        → is_none (normalize_note a.note) ≡ false
    checked a h r = unfold update_error in ground (arith, h, r)

module _ {S : Type 0} (c : Client S) (tid : String) (merging : IsMerging c) (gh : GitHub S)
    (apart : EmitsApart c tid gh) (json_loads : String → Option Value) where
  outcome-fetch :
      (status : Option String) (dl : Bool) (f : Fields) (s : S)
      → c.fetch tid (outcome c tid gh json_loads status dl f s) ≡ c.fetch tid s
  unfolding outcome
  outcome-fetch none dl f s = refl
  outcome-fetch (some status) dl f s = ground (arith, apart.same f status s)

  wrote-updated :
      (a : UpdateArgs) (dl : Bool) (o : Option Fields) (f' : Fields) (dropped : Bool) (s s' : S)
      → wrote c tid gh json_loads a dl o s ≡ (ok (updated (some f') dropped), s')
      → (o ≡ some f') × (c.fetch tid s' ≡ c.fetch tid s)
  unfolding wrote
  wrote-updated a dl none f' dropped s s' run = absurd (cc run)
  wrote-updated a dl (some f) f' dropped s s' run =
      let same : outcome c tid gh json_loads a.new_status dl f s ≡ s' =
        ap (λ (p : Result Update × S). p.1) run in
      (
        some-updated f f' (suggestion_dropped a) dropped
            (outcome c tid gh json_loads a.new_status dl f s) s' run,
        ap (c.fetch tid) (sym same) ∙ outcome-fetch a.new_status dl f s,
      )

  -- a finding that the updates were written to
  write_updates-found :
      (a : UpdateArgs) (dl : Bool) (u : Fields) (f' : Fields) (dropped : Bool) (s s' : S)
      → has "id" u ≡ false
      → write_updates c tid gh json_loads a dl u s ≡ (ok (updated (some f') dropped), s')
      → (f : Fields) × (get_finding c tid a.finding_id s ≡ (ok (some f), s))
        × (f' ≡ update f u)
        × (get_finding c tid a.finding_id s' ≡ (ok (some f'), s'))
  unfolding write_updates fields_edit
  write_updates-found a dl u f' dropped s s' id run =
      let w =
        then_run-ok (update_finding_fields c tid a.finding_id u s) _ (updated (some f') dropped) s'
          run in
      let back = wrote-updated a dl w.0 f' dropped w.1 s' w.3 in
      let found = update_fields-Found c tid merging gh json_loads a.finding_id u w.0 s w.1 id w.2 in
      let was = edited-some (fields_edit u) found.0 f' (sym back.0 ∙ found.2) in
      (
        was.0,
        found.1 ∙ ap (λ (o : Option Fields). (ok o, s)) was.1,
        was.2,
        get_finding-fetch c tid a.finding_id (some f') w.1 s' back.1
            (found.3 ∙ ap (λ (o : Option Fields). (ok o, w.1)) back.0),
      )

  -- the read of the head is for a finding that is opened again
  confirmed-resolving :
      (configurable : Fields) (status : Option String) (u : Fields)
      → resolving status ≡ true
      → confirmed c tid gh json_loads configurable status u ≡ pure u
  unfolding confirmed
  confirmed-resolving configurable status u h = rw (not_open status h) refl

  module _ (configurable : Fields) (token : String) (a : UpdateArgs) (status note : String)
      (f' : Fields) (dropped : Bool) (s' : S) (asked : a.new_status ≡ some status)
      (ends : resolving a.new_status ≡ true) (kept : normalize_note a.note ≡ some note) where
    abbrev Returned : Result Update × S → Type 0
    Returned r = r ≡ (ok (updated (some f') dropped), s')

    abbrev Goal : Type 0
    Goal = IsSettled c tid a.finding_id status note f' s'

    direct-IsSettled :
        (s : S) → Returned (write_updates c tid gh json_loads a false (updates_of a) s) → Goal
    direct-IsSettled s run =
        let w = write_updates-found a false (updates_of a) f' dropped s s' (updates_of-id a) run in
        let facts = update-updates_of a w.0 status note asked ends kept in
        record {
          status_set = ap (get "status") w.2 ∙ facts.0;
          note_set = ap (get "resolution_note") w.2 ∙ facts.1;
          stored = w.3;
        }

    after-IsSettled :
        (r : Resolution) (s : S)
        → ((o : Option Fields) (n : ℕ) → r ≡ resolved o n → Left c tid a.finding_id status note o s)
        → Returned (after_resolution c tid gh json_loads a (updates_of a) r s)
        → Goal
    unfolding after_resolution
    after-IsSettled (refused e) s left run = absurd (cc run)
    after-IsSettled (gone t) s left run = absurd (cc run)
    after-IsSettled (resolved o n) s left run =
        let l = left o n refl in
        let rest = without_resolution (updates_of a) in
        elim (branch-ok (truthy (dict rest)) (write_updates c tid gh json_loads a true rest)
          (pure (updated o (suggestion_dropped a))) s (ok (updated (some f') dropped), s') run) [
            | inl p ↦
                let none_set =
                  without_resolution-has (updates_of a) (updates_of-IsDict a) (updates_of-id a) in
                let w = write_updates-found a true rest f' dropped s s' none_set.2 p.1 in
                let same : o ≡ some w.0 = read_back o w.0 s (sym l.seen ∙ w.1) in
                let facts = l.settles w.0 same in
                record {
                  status_set =
                      ap (get "status") w.2
                      ∙ get-update_other "status" rest w.0 none_set.0
                      ∙ facts.0;
                  note_set =
                      ap (get "resolution_note") w.2
                      ∙ get-update_other "resolution_note" rest w.0 none_set.1
                      ∙ facts.1;
                  stored = w.3;
                }
            | inr p ↦
                let e = updated-inj o f' (suggestion_dropped a) dropped s s' p.1 in
                let facts = l.settles f' e.0 in
                record {
                  status_set = facts.0;
                  note_set = facts.1;
                  stored =
                      subst (λ (t : S). get_finding c tid a.finding_id t ≡ (ok (some f'), t)) e.1
                        (l.seen ∙ ap (λ (x : Option Fields). (ok x, s)) e.0);
                }
          ]

    delegated-IsSettled :
        (s : S)
        → Returned (delegated c tid gh json_loads configurable token a (updates_of a) s)
        → Goal
    unfolding delegated
    delegated-IsSettled s run =
        let r =
          then_run-ok
            (resolve_finding_thread c tid gh json_loads configurable token a.finding_id
              (normalize_note a.note) (text_in a.new_status) s)
            _ (updated (some f') dropped) s' run in
        after-IsSettled r.0 r.1
          (λ o n e. left o n r.1 (r.2 ∙ ap (λ (x : Resolution). (ok x, r.1)) e)) r.3
      where
        left :
            (o : Option Fields) (n : ℕ) (t : S)
            → resolve_finding_thread c tid gh json_loads configurable token a.finding_id
                (normalize_note a.note)
                (text_in a.new_status)
                s
              ≡ (ok (resolved o n), t)
            → Left c tid a.finding_id status note o t
        left o n t e =
            let l =
              resolve_finding_thread-Left c tid merging gh apart json_loads configurable token
                a.finding_id (normalize_note a.note) (text_in a.new_status) o n s t e in
            let same : l.0 ≡ note =
              some-inj (
                sym l.1
                ∙ ap normalize_note kept
                ∙ normalize_note-normalize_note a.note note kept) in
            subst (λ (k : String). Left c tid a.finding_id status k o t) same
              (subst (λ (st : String). Left c tid a.finding_id st l.0 o t) (ap text_in asked) l.3)

    change-IsSettled :
        (o : Option Fields) (s : S)
        → Returned (change c tid gh json_loads configurable token a (updates_of a) o s)
        → Goal
    unfolding change
    change-IsSettled none s run = absurd (cc run)
    change-IsSettled (some finding) s run =
        elim (branch-ok (delegates configurable a.new_status finding)
          (delegated c tid gh json_loads configurable token a (updates_of a))
          (write_updates c tid gh json_loads a false (updates_of a)) s
          (ok (updated (some f') dropped), s') run) [
            | inl p ↦ delegated-IsSettled s p.1
            | inr p ↦ direct-IsSettled s p.1
          ]

    apply_updates-IsSettled :
        (s : S)
        → Returned (apply_updates c tid gh json_loads configurable token a (updates_of a) s)
        → Goal
    unfolding apply_updates
    apply_updates-IsSettled s run =
        elim (branch-ok (truthy (dict (updates_of a)))
          (λ (t : S).
            then_run
              (λ (fs : List Fields).
                change c tid gh json_loads configurable token a (updates_of a)
                  (first_with a.finding_id fs))
              (list_findings c tid t))
          (pure (
            if suggestion_dropped a
            then suggestion_rejected
            else rejected "No fields provided to update"))
          s (ok (updated (some f') dropped), s') run) [
            | inl p ↦
                let fs = then_run-ok (list_findings c tid s) _ (updated (some f') dropped) s' p.1 in
                change-IsSettled (first_with a.finding_id fs.0) fs.1 fs.3
            | inr p ↦ absurd (
                not_updated (suggestion_dropped a) "No fields provided to update" (some f') dropped
                  s s' p.1)
          ]

    attempt-IsSettled :
        (s : S) → Returned (attempt c tid gh json_loads configurable token a s) → Goal
    unfolding attempt
    attempt-IsSettled s run = apply_updates-IsSettled s (
        sym (
          ap
            (λ (m : S → Result Fields × S).
              then_run (apply_updates c tid gh json_loads configurable token a) (m s))
            (confirmed-resolving configurable a.new_status (updates_of a) ends))
        ∙ run)

  caught-updated :
      (m : Result Update × S) (o : Option Fields) (dropped : Bool) (s' : S)
      → caught c tid gh json_loads m ≡ (ok (updated o dropped), s')
      → m ≡ (ok (updated o dropped), s')
  caught-updated (ok r, t) o dropped s' h = h
  caught-updated (thread_missing i, t) o dropped s' h = absurd (cc h)
  caught-updated (raised, t) o dropped s' h = absurd (cc h)

  unless-attempt :
      (error : Option String) (configurable : Fields) (token : String) (a : UpdateArgs)
      (o : Option Fields) (dropped : Bool) (s s' : S)
      → unless c tid gh json_loads error configurable token a s ≡ (ok (updated o dropped), s')
      → (error ≡ none)
        × (attempt c tid gh json_loads configurable token a s ≡ (ok (updated o dropped), s'))
  unfolding unless
  unless-attempt (some e) configurable token a o dropped s s' run = absurd (cc run)
  unless-attempt none configurable token a o dropped s s' run =
      (refl, caught-updated (attempt c tid gh json_loads configurable token a s) o dropped s' run)

  -- With a client that merges, and outcomes that are kept apart from the findings: an update to a
  -- terminal status that succeeds with a finding had a note that is not blank; whether it went
  -- through the review thread or not, the finding has the status and the stripped note, and the store
  -- holds it so.
  pub update_finding-IsSettled :
      (configurable : Fields) (token : String) (a : UpdateArgs) (status : String) (f' : Fields)
      (dropped : Bool) (s s' : S)
      → a.new_status ≡ some status
      → is_terminal status ≡ true
      → update_finding c tid gh json_loads configurable token a s
        ≡ (ok (updated (some f') dropped), s')
      → (note : String) × (normalize_note a.note ≡ some note)
        × IsSettled c tid a.finding_id status note f' s'
  unfolding update_finding
  update_finding-IsSettled configurable token a status f' dropped s s' asked ends run =
      let passed =
        unless-attempt (update_error a) configurable token a (some f') dropped s s' run in
      let resolves : resolving a.new_status ≡ true =
        ap resolving asked ∙ unfold resolving in ends in
      let kept = update_error-note a passed.0 resolves in
      (
        kept.0,
        kept.1,
        attempt-IsSettled configurable token a status kept.0 f' dropped s' asked resolves kept.1 s
            passed.1,
      )
