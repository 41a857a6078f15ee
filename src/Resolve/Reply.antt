-- ===== src/Resolve/Reply.antt =====
-- `reply_to_finding_thread` of agent/tools/reply_to_finding_thread.py.
use loupfeed_agents.Common.{
  String, false, not, Option, none, some, if◌then◌else◌, nonempty, strip, ◌⧺◌,
}
use loupfeed_agents.Json.{Value, null, bool, int, str, ℤ, Fields, field, end, get, is_int, num_of}
use loupfeed_agents.Findings.Client.{Client}
use loupfeed_agents.Findings.Mutate.{Result, ok, thread_missing, raised, ◌>>=◌, pure}
use loupfeed_agents.Findings.Thread.{get_finding}
use loupfeed_agents.Findings.Update.{put_if, update_finding_fields, append_finding_interaction}
use loupfeed_agents.Resolve.Notes.{has_target}
use loupfeed_agents.Resolve.GitHub.{GitHub}

-- the dict that the tool returns: an error, the finding with the id of the reply, or a thread of the
-- store that is missing
pub data Replying : Type 0 where
  unanswered : String → Replying
  replied : Option Fields → Value → Replying
  lost : String → Replying

-- `reply_id if isinstance(reply_id, int)`
unfoldable pub number_or_null : Value → Value
unfolding is_int
number_or_null v = if is_int v then v else null

unfoldable pub reply_updates : Value → Fields
unfolding put_if is_int
reply_updates reply_id =
    put_if (is_int reply_id) "last_review_reply_comment_id" reply_id
      (field "last_reconciliation_note" (str "Replied to GitHub review thread.") end)

-- the interaction; `comment` is the comment that was replied to
unfoldable pub bot_reply : String → ℤ → Value → Fields
unfolding number_or_null
bot_reply body comment reply_id = field "kind" (str "bot_reply") (
    field "github_comment_id" (number_or_null reply_id) (
      field "github_parent_comment_id" (int comment) (
        field "author" (str "open-swe[bot]") (
          field "body" (str body)
            (field "created_at" (str "") (field "needs_reassessment" (bool false) end))))))

module _ {S : Type 0} (c : Client S) (tid : String) (gh : GitHub S) where
  -- behind the answer; the body is stripped
  unfoldable pub record_reply : String → String → ℤ → Option Fields → S → Result Replying × S
  unfolding get update_finding_fields append_finding_interaction reply_updates bot_reply
  record_reply fid body comment none = pure (unanswered "GitHub did not accept the reply")
  record_reply fid body comment (some response) = do
    updated ← update_finding_fields c tid fid (reply_updates (get "id" response))
    appended ← append_finding_interaction c tid fid (bot_reply body comment (get "id" response))
    pure (replied appended (get "id" response))

  unfoldable pub reply_to : String → String → Option ℤ → S → Result Replying × S
  unfolding record_reply
  reply_to fid body none = pure (unanswered "Finding has no GitHub review comment mapping")
  reply_to fid body (some comment) = do
    response ← gh.reply_to_review_comment comment body
    record_reply fid body comment response

  unfoldable pub reply_found : String → String → Option Fields → S → Result Replying × S
  unfolding num_of get reply_to
  reply_found fid body none = pure (unanswered ("No finding found with id " ⧺ fid))
  reply_found fid body (some finding) =
      reply_to fid body (num_of (get "github_review_comment_id" finding))

  -- `_reply_to_finding_thread_async`
  unfoldable pub reply_async : String → String → S → Result Replying × S
  unfolding get_finding reply_found
  reply_async fid body = do finding ← get_finding c tid fid; reply_found fid body finding

  -- `except ReviewerThreadMissingError`
  unfoldable pub reply_result : Result Replying × S → Result Replying × S
  reply_result (ok r, s) = (ok r, s)
  reply_result (thread_missing t, s) = (ok (lost t), s)
  reply_result (raised, s) = (raised, s)

  -- the tool; an empty token is none
  unfoldable pub reply_to_finding_thread :
      Fields → String → String → String → S → Result Replying × S
  unfolding strip has_target reply_async reply_result
  reply_to_finding_thread configurable token fid body s =
      if not (nonempty (strip body))
      then (ok (unanswered "Reply body is required"), s)
      else if not (has_target configurable)
      then (ok (unanswered "Missing repo or PR info in run config"), s)
      else if not (nonempty token)
      then (ok (unanswered "No GitHub token available"), s)
      else reply_result (reply_async fid (strip body) s)
