-- ===== src/Breaker/Notify.antt =====
-- From a trip of the middleware to its notification.
use loupfeed_agents.Common.{
  subst, sym, ℕ, ◌≤◌, ◌≡◌, none, some, List, [], ◌∷◌, ◌++◌, length, arith, true, String, nonempty,
}
use loupfeed_agents.Json.{ℤ, Fields}
use loupfeed_agents.Breaker.Message.{Message, unrecoverable_message}
use loupfeed_agents.Breaker.Streak.{before_model, has_marker}
use loupfeed_agents.Breaker.Target.{Repo, get_slack_target, get_linear_issue_id, get_github_target}
use loupfeed_agents.Breaker.Hooks.{
  Post, slack, linear, github, Tokens, token_of, notification_posts, after_agent_posts,
  notification_posts-length,
}
use loupfeed_agents.Breaker.Runs.{tripped-marked, last?-append}

-- What may be posted for a configuration: the first of Slack, Linear and GitHub that it names, and
-- GitHub only with a token.
abbrev pub Notified : Tokens → Fields → List Post → Type 0
Notified tokens c posts =
    (((channel ts : String)
      → get_slack_target c ≡ some (channel, ts)
      → posts ≡ slack channel ts unrecoverable_message ∷ []))
    × ((i : String)
        → get_slack_target c ≡ none
        → get_linear_issue_id c ≡ some i
        → posts ≡ linear i unrecoverable_message ∷ [])
    × ((repo : Repo) (n : ℤ)
        → get_slack_target c ≡ none
        → get_linear_issue_id c ≡ none
        → get_github_target c ≡ some (repo, n)
        → nonempty (token_of tokens) ≡ true
        → posts ≡ github repo n unrecoverable_message (token_of tokens) ∷ [])
    × (length posts ≤ 1)

notification_posts-Notified :
    (tokens : Tokens) (c : Fields) → Notified tokens c (notification_posts tokens (some c))
unfolding notification_posts
notification_posts-Notified tokens c = (
  λ channel ts e. ground (arith, e),
  λ i e f. ground (arith, e, f),
  λ repo n e f g h. ground (arith, e, f, g, h),
  notification_posts-length tokens (some c),
)

posts-marked :
    (tokens : Tokens) (c : Fields) (messages : List Message) (m : Message)
    → has_marker m ≡ true
    → after_agent_posts tokens (some c) (messages ++ m ∷ []) ≡ notification_posts tokens (some c)
unfolding after_agent_posts
posts-marked tokens c messages m h = rw (last?-append messages m, h, after_agent_posts)

-- Where the middleware has tripped and its message ends the history, the hook behind the run posts
-- the notice once, to the Slack thread of the configuration, else to its Linear issue, else, with a
-- token, to its GitHub item; never to two of them.
pub after_agent_posts-before_model :
    (threshold : ℕ) (messages : List Message) (m : Message) (tokens : Tokens) (c : Fields)
    → before_model threshold messages ≡ some m
    → Notified tokens c (after_agent_posts tokens (some c) (messages ++ m ∷ []))
after_agent_posts-before_model threshold messages m tokens c h =
    subst (Notified tokens c)
      (sym (posts-marked tokens c messages m (tripped-marked threshold messages m h)))
      (notification_posts-Notified tokens c)
