-- ===== src/Publish/Unread.antt =====
-- A publication for a thread that cannot be read for another reason than that it is missing.
use loupfeed_agents.Common.{
  ℕ, zero, suc, String, ◌≡◌, refl, ap, ◌∙◌, Bool, true, false, Option, none, some, List, [], not,
  nonempty, if◌then◌else◌, take, is_some,
}
use loupfeed_agents.Json.{Value, str, Fields, field, end, get}
use loupfeed_agents.Findings.Client.{Client, Fetch, failed}
use loupfeed_agents.Findings.Mutate.{
  Result, ok, then_run, ◌>>=◌, pure, read_metadata, get_thread_metadata,
}
use loupfeed_agents.Findings.Found.{list_findings-failed}
use loupfeed_agents.Findings.Select.{filter_findings_for_publish}
use loupfeed_agents.Findings.Thread.{
  resolve_review_head_sha, head_or, text_of, get_thread_last_reviewed_sha,
}
use loupfeed_agents.Publish.Render.{render_review_body}
use loupfeed_agents.Publish.Select.{selected, with_payload, unpublished_findings, keep}
use loupfeed_agents.Publish.Host.{Host, Run, Outcome, open_count}
use loupfeed_agents.Publish.Flow.{
  backfilled, backfill_findings, reviewed_before, already_reviewed, is_skipped, post, answered,
  attempt, publish_attempt, publish_skipped, publish_pairs,
}
use loupfeed_agents.Publish.Tool.{publish_review_async}

abbrev no_findings : List Fields
no_findings = []

take-none : (n : ℕ) → take n no_findings ≡ no_findings
take-none zero = refl
take-none (suc n) = refl

-- no findings, no selection
selected-none :
    (is_re_review : Bool) (head threshold : String) (cap : ℕ)
    → selected is_re_review head threshold cap [] ≡ []
unfolding selected unpublished_findings filter_findings_for_publish
selected-none is_re_review head threshold cap = take-none cap

module _ {S : Type 0} (c : Client S) (tid : String) (host : Host S)
    (json_loads : String → Option Value) (json_dumps : Value → String) where
  head-failed :
      (head : String) (s : S)
      → c.fetch tid s ≡ failed
      → resolve_review_head_sha c tid (field "head_sha" (str head) end) s ≡ (ok head, s)
  unfolding resolve_review_head_sha get_thread_metadata read_metadata
  head-failed head s h = from (not (nonempty tid))
    where
      here : Fields → S → Result String × S
      here metadata = pure (head_or head (text_of (get "head_sha" metadata)))

      from :
          (b : Bool)
          → (if b then pure head else (get_thread_metadata c tid >>= here)) s ≡ (ok head, s)
      from true = refl
      from false = ap (λ (o : Fetch). then_run here (read_metadata tid s o)) h

  backfill-failed :
      (s : S) → c.fetch tid s ≡ failed → backfill_findings c tid host json_loads s ≡ (ok [], s)
  unfolding backfill_findings backfilled
  backfill-failed s h =
      ap (then_run (λ (fs : List Fields). backfilled c tid host json_loads fs))
        (list_findings-failed c tid s h)

  reviewed-failed :
      (s t : S) (b : Bool)
      → c.fetch tid s ≡ failed
      → host.open_swe_review_exists s ≡ (ok (some b), t)
      → already_reviewed c tid host json_loads false s ≡ (ok b, t)
  unfolding already_reviewed reviewed_before get_thread_metadata read_metadata
  reviewed-failed s t b h e =
      ap
        (λ (o : Fetch).
          then_run
            (λ (md : Fields).
              if is_some (get_thread_last_reviewed_sha md)
              then pure true
              else host.open_swe_review_exists >>= λ exists.
                  pure (elim exists [ none ↦ false | some x ↦ x ]))
            (read_metadata tid s o))
        h
      ∙ ap (then_run (λ (exists : Option Bool). pure (elim exists [ none ↦ false | some x ↦ x ]))) e

  -- the rest of a publication behind each of its reads
  abbrev from_findings : Run → String → String → List Fields → S → Result Outcome × S
  from_findings r head link findings =
      publish_pairs c tid host json_loads r head link findings
        (with_payload json_dumps (selected r.is_re_review head r.threshold r.cap findings))

  abbrev from_link : Run → String → String → S → Result Outcome × S
  from_link r head link = backfill_findings c tid host json_loads >>= from_findings r head link

  abbrev from_head : Run → String → S → Result Outcome × S
  from_head r head = host.resolve_review_trace_url >>= from_link r head

  -- with nothing selected and no review before
  pairs-failed :
      (r : Run) (head link : String) (s t : S)
      → r.is_re_review ≡ false
      → c.fetch tid s ≡ failed
      → host.open_swe_review_exists s ≡ (ok (some false), t)
      → publish_pairs c tid host json_loads r head link [] [] s
        ≡ then_run
            (publish_attempt c tid host json_loads r head 0)
            (attempt c tid host json_loads r head link [] t)
  unfolding publish_pairs is_skipped open_count keep unpublished_findings
  pairs-failed r head link s t first here known =
      ap
        (then_run (λ (skip : Bool).
          if skip
          then publish_skipped c tid host json_loads head 0 []
          else attempt c tid host json_loads r head link []
            >>= publish_attempt c tid host json_loads r head 0))
        (ap (λ (b : Bool). already_reviewed c tid host json_loads b s) first
          ∙ reviewed-failed s t false here known)

  -- Where the thread cannot be read, although it is there, and GitHub has no review before: a first
  -- publication, with the head of the configuration and the link as they are given, posts a review without
  -- comments that says that no issues were found, whatever findings the thread holds, and goes on with
  -- the answer.
  pub publish_review_async-failed :
      (r : Run) (head link : String) (s s1 s2 : S)
      → r.is_re_review ≡ false
      → c.fetch tid s ≡ failed
      → c.fetch tid s1 ≡ failed
      → host.resolve_review_trace_url s ≡ (ok link, s1)
      → host.open_swe_review_exists s1 ≡ (ok (some false), s2)
      → publish_review_async c tid host json_loads json_dumps r head s
        ≡ then_run (publish_attempt c tid host json_loads r head 0) (
            then_run (answered c tid host json_loads r head link []) (
              host.post_pull_request_review head
                (render_review_body r.pr_number 0 link r.ui_url)
                []
                s2))
  unfolding publish_review_async attempt post with_payload
  publish_review_async-failed r head link s s1 s2 first here there linked known =
      ap (then_run (from_head r)) (head-failed head s here)
      ∙ ap (then_run (from_link r head)) linked
      ∙ ap (then_run (from_findings r head link)) (backfill-failed s1 there)
      ∙ ap
          (λ (fs : List Fields).
            publish_pairs c tid host json_loads r head link [] (with_payload json_dumps fs) s1)
          (selected-none r.is_re_review head r.threshold r.cap)
      ∙ pairs-failed r head link s1 s2 first there known
