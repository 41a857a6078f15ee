-- ===== src/Breaker/Hooks.antt =====
-- `_post_unrecoverable_notification` and `aafter_agent`: the posts that they make, as a list. The
-- calls that post, and those that find a token, are other modules'; they may fail.
use loupfeed_agents.Common.{
  String, Option, none, some, List, [], ◌∷◌, last?, if◌then◌else◌, nonempty, length, ◌≤◌, arith,
}
use loupfeed_agents.Json.{ℤ, Fields}
use loupfeed_agents.Breaker.Message.{Message, unrecoverable_message}
use loupfeed_agents.Breaker.Streak.{has_marker}
use loupfeed_agents.Breaker.Target.{Repo, get_slack_target, get_linear_issue_id, get_github_target}

-- A call that posts, with its arguments.
pub data Post : Type 0 where
  slack : String → String → String → Post
  linear : String → String → Post
  github : Repo → ℤ → String → String → Post

-- `get_github_token(config) or await get_github_app_installation_token()`: the run's token, and the
-- app's, `""` standing for none
pub record Tokens : Type 0 where
  pub run : String
  pub app : String

abbrev pub token_of : Tokens → String
token_of t = if nonempty t.run then t.run else t.app

github_posts : Tokens → Option (Repo × ℤ) → List Post
github_posts tokens none = []
github_posts tokens (some (repo, n)) =
    if nonempty (token_of tokens)
    then github repo n unrecoverable_message (token_of tokens) ∷ []
    else []

-- `_post_unrecoverable_notification`, from `config.get("configurable", {})`
unfoldable pub notification_posts : Tokens → Option Fields → List Post
unfolding github_posts
notification_posts tokens none = []
notification_posts tokens (some configurable) = elim (get_slack_target configurable) [
  | some (channel, ts) ↦ slack channel ts unrecoverable_message ∷ []
  | none ↦ elim (get_linear_issue_id configurable) [
    | some i ↦ linear i unrecoverable_message ∷ []
    | none ↦ github_posts tokens (get_github_target configurable)
  ]
]

-- `aafter_agent`; the configuration is `none` where reading it raises, which is caught
unfoldable pub after_agent_posts : Tokens → Option Fields → List Message → List Post
unfolding notification_posts
after_agent_posts tokens configurable messages = elim (last? messages) [
  | none ↦ []
  | some m ↦ if has_marker m then notification_posts tokens configurable else []
]

github_posts-length : (tokens : Tokens) (t : Option (Repo × ℤ)) → length (github_posts tokens t) ≤ 1
unfolding github_posts
github_posts-length tokens none = omega arith
github_posts-length tokens (some (repo, n)) = ground arith

pub notification_posts-length :
    (tokens : Tokens) (configurable : Option Fields)
    → length (notification_posts tokens configurable) ≤ 1
unfolding notification_posts
notification_posts-length tokens none = omega arith
notification_posts-length tokens (some c) =
    ground (arith, github_posts-length tokens (get_github_target c))
