-- ===== src/Json/Values.antt =====
-- The data type of values and its operations.
use loupfeed_agents.Common.{
  ℕ, String, Bool, true, false, ◌||◌, not, Option, none, some, List, [], ◌∷◌, ◌==◌, str_eq,
  if◌then◌else◌, nonempty, is_some, mem_str,
}

-- Python's `int`; `negsuc n` is -(n + 1).
pub data ℤ : Type 0 where
  pos : ℕ → ℤ
  negsuc : ℕ → ℤ

unfoldable pub eq_ℤ : ℤ → ℤ → Bool
eq_ℤ (pos m) (pos n) = m == n
eq_ℤ (negsuc m) (negsuc n) = m == n
eq_ℤ (pos m) (negsuc n) = false
eq_ℤ (negsuc m) (pos n) = false

mutual
  pub data Value : Type 0 where
    null : Value
    bool : Bool → Value
    int : ℤ → Value
    str : String → Value
    list : Items → Value
    dict : Fields → Value

  pub data Items : Type 0 where
    nil : Items
    cons : Value → Items → Items

  pub data Fields : Type 0 where
    end : Fields
    field : String → Value → Fields → Fields

-- `d.get(k)`: a missing key reads as `None`
unfoldable pub get : String → Fields → Value
get k end = null
get k (field j v d) = if str_eq j k then v else get k d

-- `k in d`
unfoldable pub has : String → Fields → Bool
has k end = false
has k (field j v d) = str_eq j k || has k d

-- `d[k] = v`
unfoldable pub put : String → Value → Fields → Fields
put k v end = field k v end
put k v (field j w d) = if str_eq j k then field j v d else field j w (put k v d)

-- `d.pop(k, None)`
unfoldable pub del : String → Fields → Fields
del k end = end
del k (field j w d) = if str_eq j k then d else field j w (del k d)

-- `d.update(u)`
unfoldable pub update : Fields → Fields → Fields
unfolding put
update d end = d
update d (field k v u) = update (put k v d) u

-- `d.setdefault(k, v)`
unfoldable pub setdefault : String → Value → Fields → Fields
unfolding put has
setdefault k v d = if has k d then d else put k v d

-- `bool(v)`
unfoldable pub truthy : Value → Bool
truthy null = false
truthy (bool b) = b
truthy (int (pos n)) = not (n == 0)
truthy (int (negsuc n)) = true
truthy (str s) = nonempty s
truthy (list nil) = false
truthy (list (cons v l)) = true
truthy (dict end) = false
truthy (dict (field k v d)) = true

-- `isinstance(v, int)` with the number; `True` and `False` are ints too
unfoldable pub num_of : Value → Option ℤ
num_of (int z) = some z
num_of (bool b) = some (pos (if b then 1 else 0))
num_of _ = none

unfoldable pub is_int : Value → Bool
unfolding num_of
is_int v = is_some (num_of v)

-- `a == b` where one side is an int
unfoldable pub same_num : Value → Value → Bool
unfolding num_of eq_ℤ
same_num a b = elim (num_of a) [
  | none ↦ false
  | some m ↦ elim (num_of b) [ none ↦ false | some n ↦ eq_ℤ m n ]
]

-- `isinstance(v, str)`, with the text
unfoldable pub as_str : Value → Option String
as_str (str s) = some s
as_str _ = none

unfoldable pub is_str : Value → Bool
is_str (str s) = true
is_str _ = false

-- `v is None`
unfoldable pub is_null : Value → Bool
is_null null = true
is_null _ = false

-- `isinstance(v, str) and v`
unfoldable pub has_text : Value → Bool
has_text (str s) = nonempty s
has_text _ = false

-- `v == "…"`
unfoldable pub eq_text : Value → String → Bool
eq_text (str s) t = str_eq s t
eq_text _ t = false

-- `v in {"…", …}`
unfoldable pub in_texts : Value → List String → Bool
in_texts (str s) ts = mem_str s ts
in_texts _ ts = false

-- `v if isinstance(v, str) else t`
unfoldable pub text_or : Value → String → String
text_or (str s) t = s
text_or _ t = t

unfoldable pub as_dict : Value → Option Fields
as_dict (dict d) = some d
as_dict _ = none

unfoldable pub list_of : Items → List Value
list_of nil = []
list_of (cons v l) = v ∷ list_of l

unfoldable pub items_of : List Value → Items
items_of [] = nil
items_of (v ∷ l) = cons v (items_of l)

-- `isinstance(v, list)`, with the elements
unfoldable pub as_list : Value → Option (List Value)
unfolding list_of
as_list (list l) = some (list_of l)
as_list _ = none
