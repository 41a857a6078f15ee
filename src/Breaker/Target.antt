-- ===== src/Breaker/Target.antt =====
-- Where the notification of a broken sandbox goes: the readers of a run's configuration.
use loupfeed_agents.Common.{
  ℕ, ◌+◌, ◌*◌, ◌-◌, code, String, ◌&&◌, Option, none, some, leb, if◌then◌else◌, nonempty,
}
use loupfeed_agents.Json.{
  ℤ, pos, Value, null, bool, int, str, list, dict, Fields, get, as_dict, as_str, num_of,
}

-- `_get_slack_target`
unfoldable pub get_slack_target : Fields → Option (String × String)
unfolding get as_dict as_str
get_slack_target configurable = elim (as_dict (get "slack_thread" configurable)) [
  | none ↦ none
  | some thread ↦ elim (as_str (get "channel_id" thread)) [
    | none ↦ none
    | some channel ↦ elim (as_str (get "thread_ts" thread)) [
      | none ↦ none
      | some ts ↦ if nonempty channel && nonempty ts then some (channel, ts) else none
    ]
  ]
]

-- `_get_linear_issue_id`
unfoldable pub get_linear_issue_id : Fields → Option String
unfolding get as_dict as_str
get_linear_issue_id configurable = elim (as_dict (get "linear_issue" configurable)) [
  | none ↦ none
  | some issue ↦ elim (as_str (get "id" issue)) [
    | none ↦ none
    | some i ↦ if nonempty i then some i else none
  ]
]

-- the digits of a text, if it holds nothing else; the digits are ASCII
digits_value : ℕ → String → Option ℕ
digits_value n String.[] = some n
digits_value n (String.◌∷◌ c s) =
    let rest = digits_value (n * 10 + (code c - 48)) s in
    if leb 48 (code c) && leb (code c) 57 then rest else none

-- `value.isdigit()`, with `int(value)`
digit_string : String → Option ℤ
unfolding digits_value
digit_string s = elim (digits_value 0 s) [
  | none ↦ none
  | some n ↦ if nonempty s then some (pos n) else none
]

-- `_coerce_issue_number`
unfoldable pub coerce_issue_number : Value → Option ℤ
unfolding digit_string num_of
coerce_issue_number (str s) = digit_string s
coerce_issue_number null = none
coerce_issue_number (bool b) = num_of (bool b)
coerce_issue_number (int z) = some z
coerce_issue_number (list l) = none
coerce_issue_number (dict d) = none

-- `{"owner": …, "name": …}`
pub record Repo : Type 0 where
  pub owner : String
  pub name : String

-- the repository of the run
unfoldable pub run_repo : Fields → Option Repo
unfolding get as_dict as_str
run_repo configurable = elim (as_dict (get "repo" configurable)) [
  | none ↦ none
  | some config ↦ elim (as_str (get "owner" config)) [
    | none ↦ none
    | some owner ↦ elim (as_str (get "name" config)) [
      | none ↦ none
      | some name ↦
          if nonempty owner && nonempty name
          then some (record { owner = owner; name = name })
          else none
    ]
  ]
]

-- the repository that `github_pr_or_issue` names, if it names one
unfoldable pub target_repo : Repo → Fields → Repo
unfolding get as_dict as_str
target_repo repo item = elim (as_dict (get "repo" item)) [
  | none ↦ repo
  | some config ↦ elim (as_str (get "owner" config)) [
    | none ↦ repo
    | some owner ↦ elim (as_str (get "name" config)) [
      | none ↦ repo
      | some name ↦ record { owner = owner; name = name }
    ]
  ]
]

-- behind the first item: the issue, then the number of the pull request
unfoldable pub later_number : Fields → Option ℤ
unfolding get as_dict coerce_issue_number
later_number configurable =
    let pr = coerce_issue_number (get "pr_number" configurable) in
    elim (as_dict (get "github_issue" configurable)) [
      | none ↦ pr
      | some issue ↦ elim (coerce_issue_number (get "number" issue)) [ some n ↦ some n | none ↦ pr ]
    ]

with_number : Repo → Option ℤ → Option (Repo × ℤ)
with_number repo none = none
with_number repo (some n) = some (repo, n)

-- `_get_github_target`
unfoldable pub get_github_target : Fields → Option (Repo × ℤ)
unfolding run_repo target_repo later_number with_number
get_github_target configurable = elim (run_repo configurable) [
  | none ↦ none
  | some repo ↦ elim (as_dict (get "github_pr_or_issue" configurable)) [
    | none ↦ with_number repo (later_number configurable)
    | some item ↦ elim (coerce_issue_number (get "number" item)) [
      | some n ↦ some (target_repo repo item, n)
      | none ↦ with_number (target_repo repo item) (later_number configurable)
    ]
  ]
]
