-- ===== src/Resolve/Updates.antt =====
-- The updates that `update_finding` makes of its arguments.
use loupfeed_agents.Common.{
  String, ◌≡◌, refl, ap, ◌∙◌, Bool, true, false, Option, none, some, if◌then◌else◌, str_eq, arith,
  nonempty,
}
use loupfeed_agents.Json.{
  Value, null, str, Fields, end, get, has, put, update, del, get-put, has-put, IsDict, put-IsDict,
  get-update, has-del_self, has-del_other, del-IsDict,
}
use loupfeed_agents.Findings.Titles.{clip_suggestion}
use loupfeed_agents.Resolve.Notes.{normalize_note}
use loupfeed_agents.Resolve.Update.{
  UpdateArgs, resolving, set_some, title_of, set_suggestion, set_note, updates_of,
  without_resolution,
}

-- A step that sets other keys than `j`.
record Leaves (j : String) (d d' : Fields) : Type 0 where
  read : get j d' ≡ get j d
  there : has j d' ≡ has j d

put-Leaves : (k j : String) (v : Value) (d : Fields) → str_eq k j ≡ false → Leaves j d (put k v d)
put-Leaves k j v d ne = record {
  read = get-put k j v d ∙ ap (λ (b : Bool). if b then v else get j d) ne;
  there = has-put k j v d ∙ ground (arith, ne);
}

Leaves-then : {j : String} {a b d : Fields} → Leaves j a b → Leaves j b d → Leaves j a d
Leaves-then f g = record { read = g.read ∙ f.read; there = g.there ∙ f.there }

Leaves-refl : (j : String) (d : Fields) → Leaves j d d
Leaves-refl j d = record { read = refl; there = refl }

if_both : (P : Fields → Type 0) {x y : Fields} (b : Bool) → P x → P y → P (if b then x else y)
if_both P true hx hy = hx
if_both P false hx hy = hy

set_some-Leaves :
    (k j : String) (o : Option String) (d : Fields)
    → str_eq k j ≡ false
    → Leaves j d (set_some k o d)
unfolding set_some
set_some-Leaves k j none d ne = Leaves-refl j d
set_some-Leaves k j (some s) d ne = put-Leaves k j (str s) d ne

set_some-IsDict : (k : String) (o : Option String) (d : Fields) → IsDict d → IsDict (set_some k o d)
unfolding set_some
set_some-IsDict k none d h = h
set_some-IsDict k (some s) d h = put-IsDict k (str s) d h

set_suggestion-Leaves :
    (j : String) (o : Option String) (d : Fields)
    → str_eq "suggestion" j ≡ false
    → Leaves j d (set_suggestion o d)
unfolding set_suggestion
set_suggestion-Leaves j none d ne = Leaves-refl j d
set_suggestion-Leaves j (some s) d ne =
    if_both (Leaves j d) (nonempty s)
      (set_some-Leaves "suggestion" j (clip_suggestion (some s)).0 d ne)
      (put-Leaves "suggestion" j null d ne)

set_suggestion-IsDict : (o : Option String) (d : Fields) → IsDict d → IsDict (set_suggestion o d)
unfolding set_suggestion
set_suggestion-IsDict none d h = h
set_suggestion-IsDict (some s) d h =
    if_both IsDict (nonempty s) (set_some-IsDict "suggestion" (clip_suggestion (some s)).0 d h)
      (put-IsDict "suggestion" null d h)

set_note-Leaves :
    (j : String) (status o : Option String) (d : Fields)
    → str_eq "last_update_note" j ≡ false
    → str_eq "resolution_note" j ≡ false
    → Leaves j d (set_note status o d)
unfolding set_note
set_note-Leaves j status none d n1 n2 = Leaves-refl j d
set_note-Leaves j status (some note) d n1 n2 =
    let noted = put-Leaves "last_update_note" j (str note) d n1 in
    if_both (Leaves j d) (resolving status)
      (Leaves-then noted
        (put-Leaves "resolution_note" j (str note) (put "last_update_note" (str note) d) n2))
      noted

set_note-IsDict : (status o : Option String) (d : Fields) → IsDict d → IsDict (set_note status o d)
unfolding set_note
set_note-IsDict status none d h = h
set_note-IsDict status (some note) d h =
    let noted = put-IsDict "last_update_note" (str note) d h in
    if_both IsDict (resolving status)
      (put-IsDict "resolution_note" (str note) (put "last_update_note" (str note) d) noted) noted

-- `updates` up to the suggestion
described : UpdateArgs → Fields
described a = set_some "description" a.description (
    set_some "title" (title_of a.title) (
      set_some "confidence" a.confidence
        (set_some "severity" a.severity (set_some "status" a.new_status end))))

pub updates_of-IsDict : (a : UpdateArgs) → IsDict (updates_of a)
unfolding updates_of
updates_of-IsDict a = set_note-IsDict a.new_status (normalize_note a.note) _ (
    set_suggestion-IsDict a.suggestion _ (
      set_some-IsDict "description" a.description _ (
        set_some-IsDict "title" (title_of a.title) _ (
          set_some-IsDict "confidence" a.confidence _ (
            set_some-IsDict "severity" a.severity _
              (set_some-IsDict "status" a.new_status end tt))))))

-- A key that the steps behind the status do not set.
updates_of-Leaves :
    (j : String) (a : UpdateArgs)
    → str_eq "severity" j ≡ false
    → str_eq "confidence" j ≡ false
    → str_eq "title" j ≡ false
    → str_eq "description" j ≡ false
    → str_eq "suggestion" j ≡ false
    → str_eq "last_update_note" j ≡ false
    → str_eq "resolution_note" j ≡ false
    → Leaves j (set_some "status" a.new_status end) (updates_of a)
unfolding updates_of
updates_of-Leaves j a h1 h2 h3 h4 h5 h6 h7 =
    Leaves-then (set_some-Leaves "severity" j a.severity _ h1) (
      Leaves-then (set_some-Leaves "confidence" j a.confidence _ h2) (
        Leaves-then (set_some-Leaves "title" j (title_of a.title) _ h3) (
          Leaves-then (set_some-Leaves "description" j a.description _ h4) (
            Leaves-then (set_suggestion-Leaves j a.suggestion _ h5)
              (set_note-Leaves j a.new_status (normalize_note a.note) _ h6 h7)))))

pub updates_of-id : (a : UpdateArgs) → has "id" (updates_of a) ≡ false
updates_of-id a =
    Leaves.there (updates_of-Leaves "id" a refl refl refl refl refl refl refl)
    ∙ Leaves.there (set_some-Leaves "status" "id" a.new_status end refl)
    ∙ unfold has in refl

pub updates_of-status :
    (a : UpdateArgs) (status : String)
    → a.new_status ≡ some status
    → (get "status" (updates_of a) ≡ str status) × (has "status" (updates_of a) ≡ true)
updates_of-status a status e =
    let l = updates_of-Leaves "status" a refl refl refl refl refl refl refl in
    (
      l.read
          ∙ ap (λ (o : Option String). get "status" (set_some "status" o end)) e
          ∙ unfold set_some in unfold put in unfold get in refl,
      l.there
          ∙ ap (λ (o : Option String). has "status" (set_some "status" o end)) e
          ∙ unfold set_some in unfold put in unfold has in refl,
    )

set_note-resolving :
    (status : Option String) (note : String) (d : Fields)
    → resolving status ≡ true
    → (get "resolution_note" (set_note status (some note) d) ≡ str note)
      × (has "resolution_note" (set_note status (some note) d) ≡ true)
unfolding set_note
set_note-resolving status note d h = rw h (
  get-put "resolution_note" "resolution_note" (str note) (put "last_update_note" (str note) d),
  has-put "resolution_note" "resolution_note" (str note) (put "last_update_note" (str note) d),
)

pub updates_of-note :
    (a : UpdateArgs) (note : String)
    → resolving a.new_status ≡ true
    → normalize_note a.note ≡ some note
    → (get "resolution_note" (updates_of a) ≡ str note)
      × (has "resolution_note" (updates_of a) ≡ true)
unfolding updates_of described
updates_of-note a note h e =
    rw e (set_note-resolving a.new_status note (set_suggestion a.suggestion (described a)) h)

-- What a direct update leaves in a finding.
pub update-updates_of :
    (a : UpdateArgs) (f : Fields) (status note : String)
    → a.new_status ≡ some status
    → resolving a.new_status ≡ true
    → normalize_note a.note ≡ some note
    → (get "status" (update f (updates_of a)) ≡ str status)
      × (get "resolution_note" (update f (updates_of a)) ≡ str note)
update-updates_of a f status note e h n =
    let d = updates_of-IsDict a in
    let st = updates_of-status a status e in
    let no = updates_of-note a note h n in
    (
      get-update "status" (updates_of a) f d ∙ ground (arith, st),
      get-update "resolution_note" (updates_of a) f d ∙ ground (arith, no),
    )

-- What is left of the updates behind a delegated resolution sets neither the status nor the note.
pub without_resolution-has :
    (u : Fields)
    → IsDict u
    → has "id" u ≡ false
    → (has "status" (without_resolution u) ≡ false)
      × (has "resolution_note" (without_resolution u) ≡ false)
      × (has "id" (without_resolution u) ≡ false)
unfolding without_resolution
without_resolution-has u d id =
    let d1 = del-IsDict "status" u d in
    let d2 = del-IsDict "last_update_note" (del "status" u) d1 in
    (
      has-del_other "resolution_note" "status" (del "last_update_note" (del "status" u))
          (has-del_other "last_update_note" "status" (del "status" u) (has-del_self "status" u d)),
      has-del_self "resolution_note" (del "last_update_note" (del "status" u)) d2,
      has-del_other "resolution_note" "id" (del "last_update_note" (del "status" u)) (
          has-del_other "last_update_note" "id" (del "status" u)
            (has-del_other "status" "id" u id)),
    )
