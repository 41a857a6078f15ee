-- ===== src/Publish/OneThread.antt =====
-- A store of one thread, and a host that takes every review: what the tests of publications run on.
use loupfeed_agents.Common.{
  ◌≡◌, refl, sym, ap, ◌∙◌, Bool, true, false, none, some, [], arith, str_eq, eq_iff,
}
use loupfeed_agents.Json.{Value, int, pos, dict, Fields, field, end, update}
use loupfeed_agents.Findings.Client.{
  Client, IsMerging, Fetch, Write, found, not_found, done, broken, missing, metadata_of,
}
use loupfeed_agents.Findings.Stored.{found-inj}
use loupfeed_agents.Findings.Mutate.{ok}
use loupfeed_agents.Publish.Host.{Host}
use loupfeed_agents.Publish.Before.{HostApart}

-- the store of the one thread "t"
abbrev pub fetch_if : Bool → Fields → Fetch
fetch_if true md = found (dict (field "metadata" (dict md) end))
fetch_if false md = not_found

abbrev pub write_if : Bool → Fields → Fields → Write Fields
write_if true new md = done (update md new)
write_if false new md = missing

abbrev pub one_client : Client Fields
one_client = record {
  fetch = λ tid md. fetch_if (str_eq tid "t") md;
  write = λ tid new md. write_if (str_eq tid "t") new md;
}

pub one_reads : (md : Fields) → (thread : Value) × (one_client.fetch "t" md ≡ found thread)
one_reads md = (dict (field "metadata" (dict md) end), refl)

merged_if :
    (b : Bool) (new s s' : Fields) (thread : Value)
    → fetch_if b s ≡ found thread
    → write_if b new s ≡ done s'
    → (x : Value) × (fetch_if b s' ≡ found x) × (metadata_of x ≡ update (metadata_of thread) new)
merged_if true new s s' thread h w =
    let is : s' ≡ update s new = ground (arith, w) in
    (
      dict (field "metadata" (dict s') end),
      refl,
      unfold metadata_of in is ∙ ap (λ (v : Value). update (metadata_of v) new) (found-inj h),
    )
merged_if false new s s' thread h w = absurd (cc h)

write_if-done : (b : Bool) (new s s' : Fields) → write_if b new s ≡ done s' → b ≡ true
write_if-done true new s s' w = refl
write_if-done false new s s' w = absurd (cc w)

write_if_unbroken : (b : Bool) (new s s' : Fields) → ¬ (write_if b new s ≡ broken s')
write_if_unbroken true new s s' w = absurd (cc w)
write_if_unbroken false new s s' w = absurd (cc w)

pub one_client-IsMerging : IsMerging one_client
one_client-IsMerging = record {
  merged = λ tid new s s' thread h w. merged_if (str_eq tid "t") new s s' thread h w;
  torn = λ tid new s s' thread h w. absurd (write_if_unbroken (str_eq tid "t") new s s' w);
  others = λ tid other new s s' ne w.
      let here = write_if-done (str_eq tid "t") new s s' w in
      let away : str_eq other "t" ≡ false =
        ground (arith, here, ne, eq_iff tid "t", eq_iff other "t") in
      ap (λ (b : Bool). fetch_if b s') away ∙ sym (ap (λ (b : Bool). fetch_if b s) away);
}

-- GitHub takes every review and knows of none before
abbrev pub host_with : Fields → Host Fields
host_with answer = record {
  github = record {
    fetch_review_thread_id_for_comment = λ z s. (ok none, s);
    fetch_pr_review_threads = λ s. (ok [], s);
    reply_to_review_comment = λ z body s. (ok none, s);
    resolve_review_thread = λ t s. (ok true, s);
    emit_finding_status_outcome = λ f status s. s;
  };
  requests = record {
    post_status_comment = λ body s. (ok none, s);
    delete_status_comment = λ z s. (ok true, s);
    complete_review_check_run = λ z k s. (ok false, s);
  };
  post_pull_request_review = λ head body comments s. (ok answer, s);
  fetch_review_comments = λ z s. (ok [], s);
  fetch_pr_diff = λ s. (ok none, s);
  open_swe_review_exists = λ s. (ok (some false), s);
  resolve_review_trace_url = λ s. (ok "", s);
  post_slack_thread_reply = λ channel ts text s. (ok tt, s);
}

pub host_with-HostApart : (answer : Fields) → HostApart one_client "t" (host_with answer)
host_with-HostApart answer = record {
  review_threads = λ s. refl;
  deletions = λ z s. refl;
  completions = λ z k s. refl;
  posts = λ head body comments s. refl;
  diffs = λ s. refl;
  reviews = λ s. refl;
  links = λ s. refl;
}

abbrev pub host : Host Fields
host = host_with (field "id" (int (pos 5)) end)
