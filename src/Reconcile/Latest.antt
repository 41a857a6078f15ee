-- ===== src/Reconcile/Latest.antt =====
-- `_sync_latest_human_reply`: the newest human reply of a thread, noted on its finding.
use loupfeed_agents.Common.{
  ltb, String, ◌≡◌, refl, ap, ◌∙◌, Bool, true, false, ◌&&◌, Option, none, some, [], ◌∷◌, ◌++◌, any,
  last?, if◌then◌else◌, str_len, str_take, ◌⧺◌, Bool-cases, inl, inr, str_eq, eq_refl,
}
use loupfeed_agents.Json.{
  Value, null, bool, int, str, list, dict, Fields, field, end, get, put, is_int, eq_text, text_or,
  items_of, get-put,
}
use loupfeed_agents.Findings.Update.{interactions_of, is_comment}
use loupfeed_agents.Reconcile.Replies.{human_replies_after_bot_comment}
use loupfeed_agents.Reconcile.Match.{Match}

-- `github_comment_id`
unfoldable pub reply_target : Fields → Match → Value
unfolding get
reply_target f (thread, some z) = int z
reply_target f (thread, none) = get "github_review_comment_id" f

-- the last reply, where there is a comment that it answers
unfoldable pub latest_to : Value → Fields → Option Fields
unfolding is_int human_replies_after_bot_comment
latest_to target thread =
    if is_int target then last? (human_replies_after_bot_comment thread target) else none

reply_body : Fields → String
unfolding text_or get
reply_body reply =
    let body = text_or (get "body" reply) "" in
    if ltb 1000 (str_len body) then str_take 1000 body ⧺ "\n...[truncated]" else body

unfoldable pub reply_text : String → Fields → String
unfolding text_or get
reply_text key reply = text_or (get key reply) ""

interaction_of : Value → Fields → Fields
unfolding is_int get reply_text reply_body
interaction_of target reply = field "kind" (str "human_reply") (
    field "github_comment_id" (if is_int (get "id" reply) then get "id" reply else null) (
      field "github_parent_comment_id" target (
        field "author" (str (reply_text "author" reply)) (
          field "body" (str (reply_body reply)) (
            field "created_at" (str (reply_text "created_at" reply))
              (field "needs_reassessment" (bool true) end))))))

-- the four fields for the reply
unfoldable pub noted : Fields → Fields → Fields
unfolding put reply_text reply_body
noted reply f =
    put "last_reconciliation_note"
      (str "Human replied to this review thread; reassess before taking action.")
      (put "last_human_reply_body" (str (reply_body reply)) (
        put "last_human_reply_author" (str (reply_text "author" reply))
          (put "last_human_reply_at" (str (reply_text "created_at" reply)) f)))

-- the interaction, unless the finding has one for the comment
unfoldable pub with_interaction : Value → Fields → Fields → Fields
unfolding is_int get is_comment interactions_of put items_of interaction_of
with_interaction target reply f =
    if is_int (get "id" reply) && any (is_comment (get "id" reply)) (interactions_of f)
    then f
    else put "interactions"
        (list (items_of (interactions_of f ++ dict (interaction_of target reply) ∷ []))) f

unfoldable pub sync_reply : Value → Option Fields → Fields → Fields × Bool
unfolding eq_text get reply_text with_interaction noted
sync_reply target none f = (f, false)
sync_reply target (some reply) f =
    if eq_text (get "last_human_reply_at" f) (reply_text "created_at" reply)
    then (f, false)
    else (with_interaction target reply (noted reply f), true)

unfoldable pub sync_latest_human_reply : Fields → Match → Fields × Bool
unfolding reply_target latest_to sync_reply
sync_latest_human_reply f m = sync_reply (reply_target f m) (latest_to (reply_target f m) m.0) f

-- The keys that the sync leaves alone, and the time that it notes.
pub get-with_interaction :
    (k : String) (target : Value) (reply f : Fields)
    → str_eq "interactions" k ≡ false
    → get k (with_interaction target reply f) ≡ get k f
unfolding with_interaction
get-with_interaction k target reply f ne =
    elim (Bool-cases
      (is_int (get "id" reply) && any (is_comment (get "id" reply)) (interactions_of f))) [
        | inl h ↦ rw h
        | inr h ↦ rw h (simp (get-put, ne))
      ]

noted_at :
    (reply f : Fields)
    → get "last_human_reply_at" (noted reply f) ≡ str (reply_text "created_at" reply)
unfolding noted
noted_at reply f = simp get-put

noted_comment :
    (reply f : Fields)
    → get "github_review_comment_id" (noted reply f) ≡ get "github_review_comment_id" f
unfolding noted
noted_comment reply f = simp get-put

noted_id : (reply f : Fields) → get "id" (noted reply f) ≡ get "id" f
unfolding noted
noted_id reply f = simp get-put

pub sync_reply_known :
    (target : Value) (reply f : Fields)
    → eq_text (get "last_human_reply_at" f) (reply_text "created_at" reply) ≡ true
    → sync_reply target (some reply) f ≡ (f, false)
unfolding sync_reply
sync_reply_known target reply f h = rw h

pub sync_reply_new :
    (target : Value) (reply f : Fields)
    → eq_text (get "last_human_reply_at" f) (reply_text "created_at" reply) ≡ false
    → sync_reply target (some reply) f ≡ (with_interaction target reply (noted reply f), true)
unfolding sync_reply
sync_reply_new target reply f h = rw h

module _ (target : Value) where
  sync_reply_comment :
      (o : Option Fields) (f : Fields)
      → get "github_review_comment_id" (sync_reply target o f).0 ≡ get "github_review_comment_id" f
  sync_reply_comment none f = unfold sync_reply in refl
  sync_reply_comment (some reply) f =
      elim (Bool-cases (eq_text (get "last_human_reply_at" f) (reply_text "created_at" reply))) [
        | inl h ↦
            ap (λ (x : Fields × Bool). get "github_review_comment_id" x.0)
              (sync_reply_known target reply f h)
        | inr h ↦
            ap (λ (x : Fields × Bool). get "github_review_comment_id" x.0)
              (sync_reply_new target reply f h)
            ∙ get-with_interaction "github_review_comment_id" target reply (noted reply f) refl
            ∙ noted_comment reply f
      ]

  pub sync_reply_id :
      (o : Option Fields) (f : Fields) → get "id" (sync_reply target o f).0 ≡ get "id" f
  sync_reply_id none f = unfold sync_reply in refl
  sync_reply_id (some reply) f =
      elim (Bool-cases (eq_text (get "last_human_reply_at" f) (reply_text "created_at" reply))) [
        | inl h ↦ ap (λ (x : Fields × Bool). get "id" x.0) (sync_reply_known target reply f h)
        | inr h ↦
            ap (λ (x : Fields × Bool). get "id" x.0) (sync_reply_new target reply f h)
            ∙ get-with_interaction "id" target reply (noted reply f) refl
            ∙ noted_id reply f
      ]

  pub sync_reply_unchanged :
      (o : Option Fields) (f : Fields)
      → (sync_reply target o f).1 ≡ false
      → (sync_reply target o f).0 ≡ f
  sync_reply_unchanged none f h = unfold sync_reply in refl
  sync_reply_unchanged (some reply) f h =
      elim (Bool-cases (eq_text (get "last_human_reply_at" f) (reply_text "created_at" reply))) [
        | inl e ↦ ap (λ (x : Fields × Bool). x.0) (sync_reply_known target reply f e)
        | inr e ↦ absurd (cc (h, sync_reply_new target reply f e))
      ]

  sync_reply_again :
      (o : Option Fields) (f : Fields)
      → sync_reply target o (sync_reply target o f).0 ≡ ((sync_reply target o f).0, false)
  sync_reply_again none f = unfold sync_reply in refl
  sync_reply_again (some reply) f =
      elim (Bool-cases (eq_text (get "last_human_reply_at" f) (reply_text "created_at" reply))) [
        | inl h ↦ rw (sync_reply_known target reply f h) (sync_reply_known target reply f h)
        | inr h ↦
            let f' = with_interaction target reply (noted reply f) in
            let at : eq_text (get "last_human_reply_at" f') (reply_text "created_at" reply) ≡ true =
              ap (λ (v : Value). eq_text v (reply_text "created_at" reply))
                (get-with_interaction "last_human_reply_at" target reply (noted reply f) refl
                  ∙ noted_at reply f)
              ∙ unfold eq_text in eq_refl (reply_text "created_at" reply) in
            rw (sync_reply_new target reply f h) (sync_reply_known target reply f' at)
      ]

reply_target_same :
    (f f' : Fields) (m : Match)
    → get "github_review_comment_id" f' ≡ get "github_review_comment_id" f
    → reply_target f' m ≡ reply_target f m
unfolding reply_target
reply_target_same f f' (thread, some z) h = refl
reply_target_same f f' (thread, none) h = h

-- A reply that was noted is not noted again: a second sync with the same thread changes nothing.
pub sync_latest_human_reply-sync_latest_human_reply :
    (f : Fields) (m : Match)
    → sync_latest_human_reply (sync_latest_human_reply f m).0 m
      ≡ ((sync_latest_human_reply f m).0, false)
unfolding sync_latest_human_reply
sync_latest_human_reply-sync_latest_human_reply f m =
    let t = reply_target f m in
    let f' = (sync_reply t (latest_to t m.0) f).0 in
    ap (λ (u : Value). sync_reply u (latest_to u m.0) f')
      (reply_target_same f f' m (sync_reply_comment t (latest_to t m.0) f))
    ∙ sync_reply_again t (latest_to t m.0) f
