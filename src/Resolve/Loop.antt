-- ===== src/Resolve/Loop.antt =====
-- The loop of `_resolve_finding_thread_async` over the threads of a finding.
use loupfeed_agents.Common.{
  ℕ, ◌+◌, String, Bool, true, false, ◌&&◌, not, Option, none, some, List, [], ◌∷◌, ◌++◌,
  if◌then◌else◌, mem_str, nonempty,
}
use loupfeed_agents.Json.{ℤ, int, Fields, get, truthy, is_int}
use loupfeed_agents.Findings.Mutate.{Result, ◌>>=◌, pure}
use loupfeed_agents.Reconcile.Sync.{mem_int}
use loupfeed_agents.Resolve.GitHub.{GitHub}

-- `resolved_thread_ids`, `posted_resolution_comment_ids` and `resolved_count`
pub record Loop : Type 0 where
  pub resolved : List String
  pub posted : List ℤ
  pub count : ℕ

abbrev pub head? {ℓ} : {A : Type ℓ} → List A → Option A
head? [] = none
head? (x ∷ xs) = some x

abbrev pub tail {ℓ} : {A : Type ℓ} → List A → List A
tail [] = []
tail (x ∷ xs) = xs

-- a thread id that the comment of the finding leads to
added : Option String → List String → List String
added none ids = ids
added (some t) ids = if nonempty t && not (mem_str t ids) then ids ++ t ∷ [] else ids

-- `if reply and isinstance(reply.get("id"), int)`
noted_reply : ℤ → Option Fields → List ℤ → List ℤ
unfolding is_int get
noted_reply z none posted = posted
noted_reply z (some reply) posted = if is_int (get "id" reply) then posted ++ z ∷ [] else posted

unfoldable pub noted_thread : String → Bool → List ℤ → Loop → Loop
noted_thread t true posted l = record {
  resolved = l.resolved ++ t ∷ [];
  posted = posted;
  count = l.count + 1;
}
noted_thread t false posted l = record l { posted = posted }

module _ {S : Type 0} (gh : GitHub S) where
  -- the loop over the comments of the finding
  unfoldable pub collect_thread_ids : List ℤ → List String → S → Result (List String) × S
  unfolding added
  collect_thread_ids [] ids = pure ids
  collect_thread_ids (z ∷ zs) ids = do
    t ← gh.fetch_review_thread_id_for_comment z
    collect_thread_ids zs (added t ids)

  -- the reply to the comment of a thread, where it has none yet
  unfoldable pub reply_once : String → Option ℤ → List ℤ → S → Result (List ℤ) × S
  unfolding noted_reply truthy mem_int
  reply_once body none posted = pure posted
  reply_once body (some z) posted =
      if truthy (int z) && not (mem_int z posted)
      then (do reply ← gh.reply_to_review_comment z body; pure (noted_reply z reply posted))
      else pure posted

  -- one turn of the loop
  unfoldable pub resolve_one : String → String → Option ℤ → Loop → S → Result Loop × S
  unfolding reply_once noted_thread
  resolve_one body t comment l = if mem_str t l.resolved then pure l else (do
    posted ← reply_once body comment l.posted
    done ← gh.resolve_review_thread t
    pure (noted_thread t done posted l))

  -- the comments stand at the indices of their threads
  unfoldable pub resolve_all : String → List String → List ℤ → Loop → S → Result Loop × S
  unfolding resolve_one
  resolve_all body [] comments l = pure l
  resolve_all body (t ∷ ts) comments l = do
    l' ← resolve_one body t (head? comments) l
    resolve_all body ts (tail comments) l'
