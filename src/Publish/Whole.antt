-- ===== src/Publish/Whole.antt =====
-- A whole publication: what it has stored of the head, and what it does where the findings cannot be
-- read.
use loupfeed_agents.Common.{String, ◌≡◌, sym, ap, ◌∙◌, not, Option, List, nonempty}
use loupfeed_agents.Json.{Value, str, Fields, field, end}
use loupfeed_agents.Findings.Client.{Client, IsMerging, found}
use loupfeed_agents.Findings.Mutate.{Result, ok}
use loupfeed_agents.Findings.Found.{then_run-ok}
use loupfeed_agents.Findings.Thread.{resolve_review_head_sha}
use loupfeed_agents.Publish.Select.{selected, with_payload}
use loupfeed_agents.Publish.Host.{Host, Run, Outcome}
use loupfeed_agents.Publish.Flow.{backfill_findings}
use loupfeed_agents.Publish.Tool.{publish_review_async}
use loupfeed_agents.Publish.Keeps.{
  Keeps, sha_at, bind-Keeps, pure-Keeps, branch-Keeps, fetch-Keeps, get_thread_metadata-Keeps,
}
use loupfeed_agents.Publish.Before.{HostApart}
use loupfeed_agents.Publish.Finish.{backfill_findings-Keeps}
use loupfeed_agents.Publish.Advanced.{Advanced, Advanced-from, publish_pairs-Advanced}

resolve_review_head_sha-Keeps :
    {S : Type 0} (c : Client S) (tid : String) (configurable : Fields)
    → Keeps c tid (resolve_review_head_sha c tid configurable)
unfolding resolve_review_head_sha
resolve_review_head_sha-Keeps c tid configurable =
    branch-Keeps c tid (not (nonempty tid)) (pure-Keeps c tid _)
      (bind-Keeps c tid (get_thread_metadata-Keeps c tid) (λ md. pure-Keeps c tid _))

-- With a client that merges, on a thread that can be read throughout, where the calls of GitHub and for
-- the trace link leave it alone: a publication that returns has taken the head from the thread, or
-- else from the configuration. With a review that was posted or skipped, that head is stored
-- behind it as the one that was reviewed last; with an error, what was stored as that is still.
pub publish_review_async-Advanced :
    {S : Type 0} (c : Client S) (tid : String) (host : Host S) (apart : HostApart c tid host)
    (merging : IsMerging c) (reads : (s : S) → (thread : Value) × (c.fetch tid s ≡ found thread))
    (json_loads : String → Option Value) (json_dumps : Value → String) (r : Run)
    (config_head : String) (s : S) (o : Outcome) (s' : S)
    → publish_review_async c tid host json_loads json_dumps r config_head s ≡ (ok o, s')
    → (head : String) × (t : S) × (resolve_review_head_sha c tid
          (field "head_sha" (str config_head) end)
          s
        ≡ (ok head, t))
      × Advanced c tid host apart merging reads json_loads head s o s'
unfolding publish_review_async
publish_review_async-Advanced {S = S} c tid host apart merging reads json_loads json_dumps r
      config_head s o s' run =
    let configurable = field "head_sha" (str config_head) end in
    let head = then_run-ok (resolve_review_head_sha c tid configurable s) _ o s' run in
    let link = then_run-ok (host.resolve_review_trace_url head.1) _ o s' head.3 in
    let listed = then_run-ok (backfill_findings c tid host json_loads link.1) _ o s' link.3 in
    let fs = listed.0 in
    let same : sha_at c tid listed.1 ≡ sha_at c tid s =
      ap (λ (x : Result (List Fields) × S). sha_at c tid x.1) (sym listed.2)
      ∙ Keeps.same (backfill_findings-Keeps c tid host apart merging reads json_loads) link.1
      ∙ ap (λ (x : Result String × S). sha_at c tid x.1) (sym link.2)
      ∙ Keeps.same (links apart) head.1
      ∙ ap (λ (x : Result String × S). sha_at c tid x.1) (sym head.2)
      ∙ Keeps.same (resolve_review_head_sha-Keeps c tid configurable) s in
    (
      head.0,
      head.1,
      head.2,
      Advanced-from c tid host apart merging reads json_loads head.0 s listed.1 o s' same (
          publish_pairs-Advanced c tid host apart merging reads json_loads r head.0 link.0 fs
            (with_payload json_dumps (selected r.is_re_review head.0 r.threshold r.cap fs)) listed.1
            o s' listed.3),
    )
  where
    links : HostApart c tid host → Keeps c tid host.resolve_review_trace_url
    links apart = fetch-Keeps c tid apart.links
