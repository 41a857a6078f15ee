-- ===== src/Autofix/Keys.antt =====
-- The state of the fix runs in the metadata of a thread, and the key by which a failure is handled
-- once: `_dedupe_key`, `_thread_autofix_state`, and the update of `_record_attempt`.
use loupfeed_agents.Common.{
  ℕ, ◌+◌, ◌-◌, String, none, some, List, [], ◌∷◌, ◌++◌, map, if◌then◌else◌, join, ◌⧺◌, length, drop,
}
use loupfeed_agents.Json.{
  Value, int, pos, negsuc, num_of, str, list, Fields, field, end, get, as_str, as_list, text_or,
  items_of,
}
use loupfeed_agents.Findings.Rank.{cmp_text, is_above}

abbrev pub max_autofix_attempts : ℕ
max_autofix_attempts = 10

abbrev pub max_handled_keys : ℕ
max_handled_keys = 30

insert_text : String → List String → List String
unfolding is_above cmp_text
insert_text s [] = s ∷ []
insert_text s (t ∷ ts) =
    let rest = insert_text s ts in if is_above (cmp_text s t) then t ∷ rest else s ∷ t ∷ ts

-- `sorted(names)`
unfoldable pub sorted : List String → List String
unfolding insert_text
sorted [] = []
sorted (s ∷ ss) = insert_text s (sorted ss)

unfoldable pub dedupe_key : String → List String → String
unfolding sorted
dedupe_key head_sha failing_names = head_sha ⧺ (":" ⧺ join "," (sorted failing_names))

-- `attempts if isinstance(attempts, int) and attempts >= 0 else 0`
unfoldable pub attempts_of : Fields → ℕ
unfolding num_of get
attempts_of metadata = elim (num_of (get "autofix_attempts" metadata)) [
  | none ↦ 0
  | some z ↦ elim z [ pos n ↦ n | negsuc n ↦ 0 ]
]

unfoldable pub text_items : List Value → List String
unfolding as_str
text_items [] = []
text_items (v ∷ vs) =
    let rest = text_items vs in elim (as_str v) [ none ↦ rest | some s ↦ s ∷ rest ]

-- `[h for h in handled if isinstance(h, str)]`, or `[]` where that is no list
unfoldable pub handled_of : Fields → List String
unfolding as_list get text_items
handled_of metadata = elim (as_list (get "autofix_handled" metadata)) [
  | none ↦ []
  | some l ↦ text_items l
]

unfoldable pub login_of : Fields → String
unfolding text_or get
login_of metadata = text_or (get "github_login" metadata) ""

-- `l[-n:]`
abbrev pub last_of : {A : Type 0} → ℕ → List A → List A
last_of n l = drop (length l - n) l

-- the metadata that `_record_attempt` writes
unfoldable pub attempt_update : ℕ → List String → String → String → Fields
unfolding items_of
attempt_update attempts handled key head_sha = field "autofix_attempts" (int (pos (attempts + 1))) (
    field "autofix_handled"
      (list (items_of (map (λ h. str h) (last_of max_handled_keys (handled ++ key ∷ [])))))
      (field "autofix_last_head_sha" (str head_sha) end))
