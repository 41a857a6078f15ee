-- ===== src/Resolve/Replied.antt =====
-- What a reply leaves in the store.
use loupfeed_agents.Common.{String, ◌≡◌, true, Option, some, nonempty, strip}
use loupfeed_agents.Json.{Value, ℤ, Fields, get, num_of}
use loupfeed_agents.Findings.Client.{Client, IsMerging}
use loupfeed_agents.Findings.Mutate.{ok}
use loupfeed_agents.Findings.Found.{edited}
use loupfeed_agents.Findings.Thread.{get_finding}
use loupfeed_agents.Findings.Update.{fields_edit, interaction_edit}
use loupfeed_agents.Resolve.GitHub.{GitHub}
use loupfeed_agents.Resolve.Notes.{has_target}
use loupfeed_agents.Resolve.Reply.{reply_updates, bot_reply}

module _ {S : Type 0} (c : Client S) (tid : String) (merging : IsMerging c) (gh : GitHub S) where
  -- The finding as it was read, the request on its comment, and the finding as it is stored: the note, the id of the reply and the
  -- interaction on the finding that the store held when GitHub had answered.
  pub record IsReplied (fid body : String) (updated : Option Fields) (reply_id : Value) (s s' : S)
      : Type 0 where
    pub finding : Fields
    pub before : S
    pub known : get_finding c tid fid s ≡ (ok (some finding), before)
    pub comment : ℤ
    pub mapped : num_of (get "github_review_comment_id" finding) ≡ some comment
    pub response : Fields
    pub after : S
    pub answered : gh.reply_to_review_comment comment body before ≡ (ok (some response), after)
    pub reply : reply_id ≡ get "id" response
    pub held : Option Fields
    pub read : get_finding c tid fid after ≡ (ok held, after)
    pub edit :
        updated
        ≡ edited
            (interaction_edit (bot_reply body comment reply_id))
            (edited (fields_edit (reply_updates reply_id)) held)
    pub stored : get_finding c tid fid s' ≡ (ok updated, s')

  abbrev pub Answered : Fields → String → String → Type 0
  Answered configurable token body =
      (nonempty (strip body) ≡ true) × (has_target configurable ≡ true) × (nonempty token ≡ true)
