-- ===== src/Findings/Thread.antt =====
-- What else the thread of a review keeps: the head of the pull request, the watch flag, and the
-- Slack thread, with their readers.
use loupfeed_agents.Common.{
  String, Bool, ◌&&◌, not, Option, none, some, List, nonempty, if◌then◌else◌,
}
use loupfeed_agents.Json.{
  Value, bool, str, dict, Fields, field, end, get, put, update, truthy, has_text, as_str, as_dict,
  eq_text,
}
use loupfeed_agents.Findings.Client.{Client, done, missing, broken}
use loupfeed_agents.Findings.Coerce.{findings_value}
use loupfeed_agents.Findings.Mutate.{
  Result, ok, thread_missing, raised, ◌>>=◌, pure, get_thread_metadata, list_findings,
}

-- the text of a value, where it is a text that is not empty
unfoldable pub text_of : Value → Option String
unfolding as_str
text_of v = elim (as_str v) [ none ↦ none | some s ↦ if nonempty s then some s else none ]

-- the arguments of `set_reviewer_thread_metadata`
pub record ThreadArgs : Type 0 where
  pub pr : Option Fields
  pub last_reviewed_sha : Option String
  pub head_sha : Option String
  pub watch : Option Bool
  pub findings : Option (List Fields)
  pub slack_thread : Option Fields
  pub extra : Option Fields

put_some : String → Option Value → Fields → Fields
unfolding put
put_some k none d = d
put_some k (some v) d = put k v d

some_with : {A : Type 0} → (A → Value) → Option A → Option Value
some_with f none = none
some_with f (some a) = some (f a)

with_extra : Option Fields → Fields → Fields
unfolding update
with_extra none d = d
with_extra (some e) d = update d e

-- the dict that `set_reviewer_thread_metadata` writes
unfoldable pub thread_metadata : ThreadArgs → Fields
unfolding put_some some_with with_extra
thread_metadata a = with_extra a.extra (
    put_some "slack_thread" (some_with (λ d. dict d) a.slack_thread) (
      put_some "findings" (some_with findings_value a.findings) (
        put_some "watch" (some_with (λ b. bool b) a.watch) (
          put_some "head_sha" (some_with (λ s. str s) a.head_sha) (
            put_some "last_reviewed_sha" (some_with (λ s. str s) a.last_reviewed_sha) (
              put_some "pr" (some_with (λ d. dict d) a.pr) (field "kind" (str "reviewer") end)))))))

unfoldable pub get_thread_watch_flag : Fields → Bool
unfolding get truthy
get_thread_watch_flag metadata = truthy (get "watch" metadata)

unfoldable pub get_thread_last_reviewed_sha : Fields → Option String
unfolding get text_of
get_thread_last_reviewed_sha metadata = text_of (get "last_reviewed_sha" metadata)

unfoldable pub get_thread_pr_meta : Fields → Option Fields
unfolding get as_dict
get_thread_pr_meta metadata = as_dict (get "pr" metadata)

unfoldable pub get_thread_slack_ref : Fields → Option Fields
unfolding get as_dict has_text
get_thread_slack_ref metadata = elim (as_dict (get "slack_thread" metadata)) [
  | none ↦ none
  | some t ↦ if has_text (get "channel_id" t) && has_text (get "thread_ts" t) then some t else none
]

unfoldable pub head_or : String → Option String → String
head_or s none = s
head_or s (some t) = t

-- the head in the configuration of the run, or the empty text
unfoldable pub config_head : Fields → String
unfolding get as_str head_or
config_head configurable = head_or "" (as_str (get "head_sha" configurable))

-- `get_finding`: the first finding with the id
unfoldable pub first_with : String → List Fields → Option Fields
unfolding eq_text get
first_with fid List.[] = none
first_with fid (List.◌∷◌ f fs) = if eq_text (get "id" f) fid then some f else first_with fid fs

module _ {S : Type 0} (c : Client S) (tid : String) where
  unfoldable pub resolve_review_head_sha : Fields → S → Result String × S
  unfolding config_head text_of get head_or get_thread_metadata
  resolve_review_head_sha configurable =
      if not (nonempty tid) then pure (config_head configurable) else (do
        metadata ← get_thread_metadata c tid
        pure (head_or (config_head configurable) (text_of (get "head_sha" metadata))))

  unfoldable pub get_finding : String → S → Result (Option Fields) × S
  unfolding first_with list_findings
  get_finding fid = do findings ← list_findings c tid; pure (first_with fid findings)

  unfoldable pub set_reviewer_thread_metadata : ThreadArgs → S → Result (Unit {0}) × S
  unfolding thread_metadata
  set_reviewer_thread_metadata a s = elim (c.write tid (thread_metadata a) s) [
    | done s' ↦ (ok tt, s')
    | missing ↦ (thread_missing tid, s)
    | broken s' ↦ (raised, s')
  ]
