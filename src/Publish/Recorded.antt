-- ===== src/Publish/Recorded.antt =====
-- The store behind the record of a publication.
use loupfeed_agents.Common.{
  ℕ, String, ◌≡◌, refl, sym, ap, subst, ◌∙◌, Bool, true, false, ◌||◌, Option, List, [], ◌∷◌, map,
  arith, All, all,
}
use loupfeed_agents.Json.{Value, ℤ, Fields, field, end, get}
use loupfeed_agents.Findings.Coerce.{HasId, coerce_findings_list-HasId, findings_value}
use loupfeed_agents.Findings.Client.{Client, IsMerging, found, done, metadata_of}
use loupfeed_agents.Findings.Mutate.{Result, ok, then_run, list_findings, replace_findings}
use loupfeed_agents.Findings.Stored.{
  findings_of, Frame, list_findings-found, written_findings, unchanged-Frame,
}
use loupfeed_agents.Reconcile.Stored.{or_false}
use loupfeed_agents.Publish.Select.{selected}
use loupfeed_agents.Publish.Stamp.{
  Comments, finding_ids, comment_id_by_finding_id, stamp_review, stamp_comment, stamp_all,
  store_changed, record_review_publication,
}
use loupfeed_agents.Publish.Stamped.{
  published, stamp_review-Kept, stamp_comment-Kept, stamp_all-map, stamp_all-HasId,
  stamp_all_unchanged,
}
use loupfeed_agents.Publish.Published.{EachPublished, map-EachPublished}
use loupfeed_agents.Publish.Sourced.{Sourced, comment_id_by_finding_id-Sourced}
use loupfeed_agents.Publish.Once.{lacks_comment, selected-published}

module _ {S : Type 0} (c : Client S) (tid : String) (s : S) where
  changed-done :
      (fs : List Fields) (s' : S)
      → store_changed c tid (fs, true) s ≡ (ok tt, s')
      → c.write tid (field "findings" (findings_value fs) end) s ≡ done s'
  unfolding store_changed replace_findings
  changed-done fs s' h = ground (arith, h)

  unchanged_same :
      (fs : List Fields) (s' : S) → store_changed c tid (fs, false) s ≡ (ok tt, s') → s' ≡ s
  unfolding store_changed
  unchanged_same fs s' h = sym (ap (λ (r : Result (Unit {0}) × S). r.1) h)

  -- The findings with or without a write: where nothing has changed they are those of the store.
  pub store_changed-Frame :
      (merging : IsMerging c) (thread : Value) (h : c.fetch tid s ≡ found thread) (fs : List Fields)
      (changed : Bool) (s' : S)
      → All HasId fs
      → (changed ≡ false → fs ≡ findings_of thread)
      → store_changed c tid (fs, changed) s ≡ (ok tt, s')
      → (list_findings c tid s' ≡ (ok fs, s')) × Frame c tid thread s s'
  store_changed-Frame merging thread h fs true s' ids same run =
      written_findings c merging tid s thread h fs s' ids (changed-done fs s' run)
  store_changed-Frame merging thread h fs false s' ids same run =
      subst (λ (t : S). (list_findings c tid t ≡ (ok fs, t)) × Frame c tid thread s t)
        (sym (unchanged_same fs s' run))
        (
          list_findings-found c tid s thread h
              ∙ ap (λ (l : List Fields). (ok l, s)) (sym (same refl)),
          unchanged-Frame c tid s thread h,
        )

-- the two loops of a publication
module _ (ids : List String) (review : ℤ) (comments : Comments) (run : String) where
  abbrev reviewed : List Fields → List Fields × Bool
  reviewed fs = stamp_all (stamp_review ids review) fs

  abbrev pub commented : List Fields → List Fields × Bool
  commented fs = stamp_all (stamp_comment comments run) (stamp_all (stamp_review ids review) fs).0

  map_twice :
      (fs : List Fields)
      → map (λ f. (stamp_comment comments run f).0) (map (λ f. (stamp_review ids review f).0) fs)
        ≡ map (published ids review comments run) fs
  map_twice [] = refl
  map_twice (f ∷ fs) =
      ap (λ (l : List Fields). published ids review comments run f ∷ l) (map_twice fs)

  commented-map : (fs : List Fields) → (commented fs).0 ≡ map (published ids review comments run) fs
  commented-map fs =
      stamp_all-map (stamp_comment comments run) (stamp_comment-Kept comments run) (reviewed fs).0
      ∙ ap (map (λ f. (stamp_comment comments run f).0))
          (stamp_all-map (stamp_review ids review) (stamp_review-Kept ids review) fs)
      ∙ map_twice fs

  commented-HasId : (fs : List Fields) → All HasId fs → All HasId (commented fs).0
  commented-HasId fs h =
      stamp_all-HasId (stamp_comment comments run) (stamp_comment-Kept comments run) (reviewed fs).0
        (stamp_all-HasId (stamp_review ids review) (stamp_review-Kept ids review) fs h)

  commented_unchanged :
      (fs : List Fields) → ((commented fs).1 || (reviewed fs).1) ≡ false → (commented fs).0 ≡ fs
  commented_unchanged fs h =
      let quiet = or_false (commented fs).1 (reviewed fs).1 h in
      stamp_all_unchanged (stamp_comment comments run) (stamp_comment-Kept comments run)
        (reviewed fs).0 quiet.0
      ∙ stamp_all_unchanged (stamp_review ids review) (stamp_review-Kept ids review) fs quiet.1

-- With a client that merges, on a thread that can be read: a publication that is recorded has
-- changed nothing but the findings, which are stored in their order. Those that were posted have
-- the id of the review, each that has a comment by its id has that comment, which
-- GitHub returned with the marker of the finding, and the run if there is
-- one, the others are as they were, and so is every key but those five that a publication writes.
-- None that has such a comment is selected again from what is stored, whatever the head, the
-- threshold and the cap are.
pub record_review_publication-Frame :
    {S : Type 0} (c : Client S) (merging : IsMerging c) (tid : String) (s : S) (thread : Value)
    (json_loads : String → Option Value) (review : ℤ) (posted records : List Fields) (run : String)
    (s' : S)
    → c.fetch tid s ≡ found thread
    → record_review_publication c tid json_loads review posted records run s ≡ (ok tt, s')
    → (fs : List Fields) × EachPublished
        (finding_ids posted)
        review
        (comment_id_by_finding_id json_loads posted records)
        run
        (findings_of thread)
        fs
      × Sourced json_loads records (comment_id_by_finding_id json_loads posted records)
      × (list_findings c tid s' ≡ (ok fs, s'))
      × Frame c tid thread s s'
      × ((is_re_review : Bool) (head threshold : String) (cap : ℕ)
          → all
              (lacks_comment (comment_id_by_finding_id json_loads posted records))
              (selected is_re_review head threshold cap fs)
            ≡ true)
unfolding record_review_publication
record_review_publication-Frame c merging tid s thread json_loads review posted records run s' h
      went =
    let ids = finding_ids posted in
    let comments = comment_id_by_finding_id json_loads posted records in
    let fs = findings_of thread in
    let out = commented ids review comments run fs in
    let changed = out.1 || (stamp_all (stamp_review ids review) fs).1 in
    let body : store_changed c tid (out.0, changed) s ≡ (ok tt, s') =
      sym (
        ap
          (then_run (λ (latest : List Fields). store_changed c tid (
            (commented ids review comments run latest).0,
            (commented ids review comments run latest).1
                || (stamp_all (stamp_review ids review) latest).1,
          )))
          (list_findings-found c tid s thread h))
      ∙ went in
    let stored =
      store_changed-Frame c tid s merging thread h out.0 changed s'
        (commented-HasId ids review comments run fs
          (coerce_findings_list-HasId (get "findings" (metadata_of thread))))
        (commented_unchanged ids review comments run fs) body in
    (
      out.0,
      subst (EachPublished ids review comments run fs)
          (sym (commented-map ids review comments run fs))
          (map-EachPublished ids review comments run fs),
      comment_id_by_finding_id-Sourced json_loads posted records,
      stored.0,
      stored.1,
      λ is_re_review head threshold cap.
          ap
            (λ (l : List Fields).
              all (lacks_comment comments) (selected is_re_review head threshold cap l))
            (commented-map ids review comments run fs)
          ∙ selected-published ids review comments run is_re_review head threshold cap fs,
    )
