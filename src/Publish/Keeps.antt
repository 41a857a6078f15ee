-- ===== src/Publish/Keeps.antt =====
-- What leaves the head that was reviewed last as it is stored: the reads, the writes of other keys,
-- and the calls of a publication that are made before its end.
use loupfeed_agents.Common.{
  String, ◌≡◌, refl, sym, ap, ◌∙◌, Bool, true, false, List, arith, inl, inr, if◌then◌else◌,
}
use loupfeed_agents.Json.{Value, Fields, field, end, get, has, get-update, IsDict}
use loupfeed_agents.Findings.Coerce.{findings_value}
use loupfeed_agents.Findings.Client.{
  Client, IsMerging, Fetch, found, not_found, failed, done, broken, Write-cases, metadata_of,
}
use loupfeed_agents.Findings.Mutate.{
  Result, ok, thread_missing, raised, then_run, ◌>>=◌, pure, read_metadata, get_thread_metadata,
  list_findings, replace_findings,
}
use loupfeed_agents.Findings.Thread.{ThreadArgs, thread_metadata, set_reviewer_thread_metadata}

-- the metadata as it is read; empty where it cannot be read
abbrev seen : Fetch → Fields
seen (found thread) = metadata_of thread
seen not_found = end
seen failed = end

read_metadata-state :
    {S : Type 0} (tid : String) (s : S) (o : Fetch) → (read_metadata tid s o).1 ≡ s
unfolding read_metadata
read_metadata-state tid s (found thread) = refl
read_metadata-state tid s not_found = refl
read_metadata-state tid s failed = refl

module _ {S : Type 0} (c : Client S) (tid : String) where
  abbrev pub sha_at : S → Value
  sha_at s = get "last_reviewed_sha" (seen (c.fetch tid s))

  -- whatever comes of the call
  pub record Keeps {A : Type 0} (m : S → Result A × S) : Type 0 where
    pub same : (s : S) → sha_at (m s).1 ≡ sha_at s

  after_call :
      {A B : Type 0} (f : A → S → Result B × S) (s : S) (r : Result A) (t : S)
      → ((a : A) → Keeps (f a))
      → sha_at t ≡ sha_at s
      → sha_at (then_run f (r, t)).1 ≡ sha_at s
  after_call f s (ok a) t keeps e = Keeps.same (keeps a) t ∙ e
  after_call f s (thread_missing i) t keeps e = e
  after_call f s raised t keeps e = e

  -- a call and the rest of the block behind it
  pub bind-Keeps :
      {A B : Type 0} {m : S → Result A × S} {f : A → S → Result B × S}
      → Keeps m
      → ((a : A) → Keeps (f a))
      → Keeps (m >>= f)
  bind-Keeps {m = m} {f = f} first rest = record {
    same = λ s. after_call f s (m s).0 (m s).1 rest (Keeps.same first s);
  }

  pub pure-Keeps : {A : Type 0} (a : A) → Keeps (pure a)
  pure-Keeps a = record { same = λ s. refl }

  pub branch-Keeps :
      {A : Type 0} (b : Bool) {m n : S → Result A × S}
      → Keeps m
      → Keeps n
      → Keeps (if b then m else n)
  branch-Keeps true hm hn = hm
  branch-Keeps false hm hn = hn

  -- a call that leaves the thread as it is
  pub fetch-Keeps :
      {A : Type 0} {m : S → Result A × S}
      → ((s : S) → c.fetch tid (m s).1 ≡ c.fetch tid s)
      → Keeps m
  fetch-Keeps same = record {
    same = λ s. ap (λ (o : Fetch). get "last_reviewed_sha" (seen o)) (same s);
  }

  pub get_thread_metadata-Keeps : Keeps (get_thread_metadata c tid)
  unfolding get_thread_metadata
  get_thread_metadata-Keeps = record {
    same = λ s. ap sha_at (read_metadata-state tid s (c.fetch tid s));
  }

  pub list_findings-Keeps : Keeps (list_findings c tid)
  unfolding list_findings
  list_findings-Keeps = bind-Keeps get_thread_metadata-Keeps (λ md. pure-Keeps _)

  -- a client that merges, and a thread that can be read
  module _ (merging : IsMerging c)
      (reads : (s : S) → (thread : Value) × (c.fetch tid s ≡ found thread)) where
    sha-write :
        (md : Fields) (s s' : S)
        → IsDict md
        → c.write tid md s ≡ done s'
        → sha_at s' ≡ (if has "last_reviewed_sha" md then get "last_reviewed_sha" md else sha_at s)
    sha-write md s s' dict w =
        let (thread, h) = reads s in
        let (thread', h', merged) = merging.merged tid md s s' thread h w in
        ap (λ (o : Fetch). get "last_reviewed_sha" (seen o)) h'
        ∙ ap (get "last_reviewed_sha") merged
        ∙ get-update "last_reviewed_sha" md (metadata_of thread) dict
        ∙ ap
            (λ (o : Fetch).
              if has "last_reviewed_sha" md
              then get "last_reviewed_sha" md
              else get "last_reviewed_sha" (seen o))
            (sym h)

    -- a write of other keys that raises, whether it was made or not
    sha-torn :
        (md : Fields) (s s' : S)
        → IsDict md
        → has "last_reviewed_sha" md ≡ false
        → c.write tid md s ≡ broken s'
        → sha_at s' ≡ sha_at s
    sha-torn md s s' dict without w =
        let (thread, h) = reads s in
        let (thread', h', either) = merging.torn tid md s s' thread h w in
        let seen_sha : Fetch → Value = λ o. get "last_reviewed_sha" (seen o) in
        ap seen_sha h'
        ∙ elim either [
          | inl same ↦ ap (get "last_reviewed_sha") same
          | inr merged ↦
              ap (get "last_reviewed_sha") merged
              ∙ get-update "last_reviewed_sha" md (metadata_of thread) dict
              ∙ ap
                  (λ (b : Bool).
                    if b
                    then get "last_reviewed_sha" md
                    else get "last_reviewed_sha" (metadata_of thread))
                  without
        ]
        ∙ ap seen_sha (sym h)

    replace_findings-sha :
        (fs : List Fields) (s : S) → sha_at (replace_findings c tid fs s).1 ≡ sha_at s
    unfolding replace_findings get has
    replace_findings-sha fs s =
        let md = field "findings" (findings_value fs) end in
        elim (Write-cases (c.write tid md s)) [
          | inl w ↦ rw (w.1, replace_findings) (sha-write md s w.0 (refl, tt) w.1)
          | inr (inl e) ↦ rw (e, replace_findings) refl
          | inr (inr w) ↦ rw (w.1, replace_findings) (sha-torn md s w.0 (refl, tt) refl w.1)
        ]

    pub replace_findings-Keeps : (fs : List Fields) → Keeps (replace_findings c tid fs)
    replace_findings-Keeps fs = record { same = replace_findings-sha fs }

    set_reviewer_thread_metadata-other :
        (a : ThreadArgs)
        → IsDict (thread_metadata a)
        → has "last_reviewed_sha" (thread_metadata a) ≡ false
        → (s : S) → sha_at (set_reviewer_thread_metadata c tid a s).1 ≡ sha_at s
    unfolding set_reviewer_thread_metadata get
    set_reviewer_thread_metadata-other a dict without s =
        elim (Write-cases (c.write tid (thread_metadata a) s)) [
          | inl w ↦
              rw (w.1, set_reviewer_thread_metadata)
                (sha-write (thread_metadata a) s w.0 dict w.1
                  ∙ ap
                      (λ (b : Bool).
                        if b then get "last_reviewed_sha" (thread_metadata a) else sha_at s)
                      without)
          | inr (inl e) ↦ rw (e, set_reviewer_thread_metadata) refl
          | inr (inr w) ↦
              rw (w.1, set_reviewer_thread_metadata)
                (sha-torn (thread_metadata a) s w.0 dict without w.1)
        ]

    pub set_reviewer_thread_metadata-Keeps :
        (a : ThreadArgs)
        → IsDict (thread_metadata a)
        → has "last_reviewed_sha" (thread_metadata a) ≡ false
        → Keeps (set_reviewer_thread_metadata c tid a)
    set_reviewer_thread_metadata-Keeps a dict without = record {
      same = set_reviewer_thread_metadata-other a dict without;
    }

    pub set_reviewer_thread_metadata-sha :
        (a : ThreadArgs) (s s' : S)
        → IsDict (thread_metadata a)
        → has "last_reviewed_sha" (thread_metadata a) ≡ true
        → set_reviewer_thread_metadata c tid a s ≡ (ok tt, s')
        → sha_at s' ≡ get "last_reviewed_sha" (thread_metadata a)
    unfolding set_reviewer_thread_metadata
    set_reviewer_thread_metadata-sha a s s' dict names run =
        elim (Write-cases (c.write tid (thread_metadata a) s)) [
          | inl w ↦
              let same : w.0 ≡ s' = ground (arith, w.1, run) in
              ap sha_at (sym same)
              ∙ sha-write (thread_metadata a) s w.0 dict w.1
              ∙ ap
                  (λ (b : Bool).
                    if b then get "last_reviewed_sha" (thread_metadata a) else sha_at s)
                  names
          | inr (inl e) ↦ absurd (ground (arith, e, run))
          | inr (inr w) ↦ absurd (ground (arith, w.1, run))
        ]
