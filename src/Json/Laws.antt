-- ===== src/Json/Laws.antt =====
-- What a read sees after a write.
use loupfeed_agents.Json.Values.{
  Value, null, list, Fields, end, field, get, has, put, setdefault, list_of, items_of, as_list,
  update, del,
}
use loupfeed_agents.Common.{
  String, ◌≡◌, refl, ap, subst, ◌∙◌, false, ◌||◌, some, List, [], ◌∷◌, arith, str_eq, eq_iff,
  eq_refl, if◌then◌else◌, Bool-cases, inl, inr,
}

pub get-put :
    (k j : String) (v : Value) (d : Fields)
    → get j (put k v d) ≡ (if str_eq k j then v else get j d)
unfolding get put
get-put k j v end = refl
get-put k j v (field i w d) = ground (arith, eq_iff k j, eq_iff i k, eq_iff i j, get-put k j v d)

pub has-put : (k j : String) (v : Value) (d : Fields) → has j (put k v d) ≡ (str_eq k j || has j d)
unfolding has put
has-put k j v end = refl
has-put k j v (field i w d) = ground (arith, eq_iff k j, eq_iff i k, eq_iff i j, has-put k j v d)

pub get-put_self : (k : String) (v : Value) (d : Fields) → get k (put k v d) ≡ v
get-put_self k v d = simp (get-put, eq_refl)

pub get-of-has-false : (k : String) (d : Fields) → has k d ≡ false → get k d ≡ null
unfolding get has
get-of-has-false k end h = refl
get-of-has-false k (field j v d) h = ground (arith, get-of-has-false k d)

-- A default shows only where the key is missing.
pub get-setdefault :
    (k j : String) (v : Value) (d : Fields)
    → get j (setdefault k v d) ≡ (if has k d then get j d else if str_eq k j then v else get j d)
unfolding setdefault
get-setdefault k j v d = elim (Bool-cases (has k d)) [
  | inl h ↦ rw h
  | inr h ↦ rw h (get-put k j v d)
]

pub has-setdefault :
    (k j : String) (v : Value) (d : Fields) → has j (setdefault k v d) ≡ (str_eq k j || has j d)
unfolding setdefault
has-setdefault k j v d = elim (Bool-cases (has k d)) [
  | inl h ↦ rw h (ground (arith, eq_iff k j, h))
  | inr h ↦ rw h (has-put k j v d)
]

pub list_of-items_of : (l : List Value) → list_of (items_of l) ≡ l
unfolding list_of items_of
list_of-items_of [] = refl
list_of-items_of (v ∷ l) = rw (list_of-items_of l)

pub as_list-list : (l : List Value) → as_list (list (items_of l)) ≡ some l
unfolding as_list
as_list-list l = ap some (list_of-items_of l)

pub ruleset json_laws = (get-put, has-put, get-setdefault, has-setdefault, list_of-items_of)

-- No key stands twice.
abbrev pub IsDict : Fields → Type 0
IsDict end = Unit
IsDict (field k v d) = (has k d ≡ false) × IsDict d

pub put-IsDict : (k : String) (v : Value) (d : Fields) → IsDict d → IsDict (put k v d)
unfolding put has
put-IsDict k v end h = (refl, tt)
put-IsDict k v (field j w d) h = elim (Bool-cases (str_eq j k)) [
  | inl e ↦ rw e h
  | inr e ↦
      rw e (has-put k j v d ∙ ground (arith, h.0, e, eq_iff j k, eq_iff k j), put-IsDict k v d h.1)
]

pub get-update :
    (j : String) (u d : Fields)
    → IsDict u
    → get j (update d u) ≡ (if has j u then get j u else get j d)
unfolding update has get
get-update j end d h = refl
get-update j (field k v u) d h =
    get-update j u (put k v d) h.1 ∙ ground (arith, h.0, get-put k j v d, eq_iff k j)

pub has-del_other : (k j : String) (d : Fields) → has j d ≡ false → has j (del k d) ≡ false
unfolding has del
has-del_other k j end h = refl
has-del_other k j (field i w d) h = ground (arith, h, has-del_other k j d)

pub del-IsDict : (k : String) (d : Fields) → IsDict d → IsDict (del k d)
unfolding del
del-IsDict k end h = tt
del-IsDict k (field j w d) h = elim (Bool-cases (str_eq j k)) [
  | inl e ↦ rw e h.1
  | inr e ↦ rw e (has-del_other k j d h.0, del-IsDict k d h.1)
]

pub has-del_self : (k : String) (d : Fields) → IsDict d → has k (del k d) ≡ false
unfolding has del
has-del_self k end h = refl
has-del_self k (field j w d) h = ground (arith, h.0, eq_iff j k, has-del_self k d h.1, same_key)
  where
    same_key : j ≡ k → has k d ≡ false
    same_key e = subst (λ (i : String). has i d ≡ false) e h.0
