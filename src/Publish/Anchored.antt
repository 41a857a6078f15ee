-- ===== src/Publish/Anchored.antt =====
-- The findings of a review that GitHub has taken: all that were selected, or those of them with an
-- anchor in the diff.
use loupfeed_agents.Common.{
  String, ◌≡◌, refl, sym, ap, subst, ◌∙◌, Bool, true, false, ◌&&◌, not, Option, none, some, List,
  [], ◌∷◌, arith, null, length, Bool-cases, ◌⊎◌, inl, inr, if◌then◌else◌,
}
use loupfeed_agents.Json.{Value, Fields, get, has, as_str}
use loupfeed_agents.Diff.Anchor.{LineSet}
use loupfeed_agents.Findings.Client.{Client}
use loupfeed_agents.Findings.Mutate.{Result, ok, ◌>>=◌, pure}
use loupfeed_agents.Findings.Found.{then_run-ok}
use loupfeed_agents.Publish.Drop.{
  is_anchored, split_anchored, filter_against, resolve_diff_line_set, filter_against_pr_diff,
}
use loupfeed_agents.Publish.Stamp.{with_id, finding_ids}
use loupfeed_agents.Publish.Render.{render_review_body}
use loupfeed_agents.Publish.Host.{
  Host, Run, Attempt, failed, taken, findings_in, comments_in, error_of, is_unresolved, judged,
  judged_again,
}
use loupfeed_agents.Publish.Flow.{post, retry, answered, attempt}

-- the findings that pass a test, with their payloads
abbrev pub passing : (Fields → Fields → Bool) → List (Fields × Fields) → List (Fields × Fields)
passing test [] = []
passing test ((f, p) ∷ ps) = let rest = passing test ps in if test f p then (f, p) ∷ rest else rest

-- those with an anchor in the diff, and those without one
abbrev pub anchored : LineSet → List (Fields × Fields) → List (Fields × Fields)
anchored lines ps = passing (is_anchored lines) ps

abbrev pub unanchored : LineSet → List (Fields × Fields) → List (Fields × Fields)
unanchored lines ps = passing (λ f p. not (is_anchored lines f p)) ps

split_anchored-parts :
    (lines : LineSet) (ps : List (Fields × Fields))
    → ((split_anchored lines ps).0 ≡ anchored lines ps)
      × ((split_anchored lines ps).1 ≡ finding_ids (findings_in (unanchored lines ps)))
unfolding split_anchored finding_ids
split_anchored-parts lines [] = (refl, refl)
split_anchored-parts lines ((f, p) ∷ ps) =
    let rest = split_anchored-parts lines ps in
    elim (Bool-cases (is_anchored lines f p)) [
      | inl e ↦ rw e (ap (λ (l : List (Fields × Fields)). (f, p) ∷ l) rest.0, rest.1)
      | inr e ↦ rw e (rest.0, ap (with_id (as_str (get "id" f))) rest.1)
    ]

-- What a review that was taken holds, which is what was sent for the answer: everything, at the first request, or the findings with an anchor,
-- where some have none and the diff is known.
abbrev pub Taken :
    (LineSet → Type 0)
    → (Fields → List (Fields × Fields) → Type 0)
    → List (Fields × Fields)
    → Attempt
    → Type 0
Taken Known Sent pairs (failed error dropped) = Unit
Taken Known Sent pairs (taken response posted dropped) =
    (has "_error" response ≡ false)
    × Sent response posted
    × (((posted ≡ pairs) × (dropped ≡ []))
        ⊎ ((lines : LineSet) × Known lines
            × (posted ≡ anchored lines pairs)
            × (dropped ≡ finding_ids (findings_in (unanchored lines pairs)))
            × (null dropped ≡ false)
            × (null posted ≡ false)))

judged-Taken :
    (Known : LineSet → Type 0) (Sent : Fields → List (Fields × Fields) → Type 0) (response : Fields)
    (pairs : List (Fields × Fields))
    → Sent response pairs
    → Taken Known Sent pairs (judged response pairs [])
unfolding judged
judged-Taken Known Sent response pairs sent = elim (Bool-cases (has "_error" response)) [
  | inl e ↦ rw e tt
  | inr e ↦ rw e (e, sent, inl (refl, refl))
]

judged_again-Taken :
    (Known : LineSet → Type 0) (Sent : Fields → List (Fields × Fields) → Type 0) (response : Fields)
    (lines : LineSet) (pairs posted : List (Fields × Fields)) (dropped : List String)
    → Known lines
    → Sent response posted
    → posted ≡ anchored lines pairs
    → dropped ≡ finding_ids (findings_in (unanchored lines pairs))
    → null dropped ≡ false
    → null posted ≡ false
    → Taken Known Sent pairs (judged_again response posted dropped)
unfolding judged_again
judged_again-Taken Known Sent response lines pairs posted dropped known sent is left some_left
      some_in =
    elim (Bool-cases (has "_error" response)) [
      | inl e ↦ rw e tt
      | inr e ↦ rw e (e, sent, inr (lines, known, is, left, some_left, some_in))
    ]

Taken-same :
    {S : Type 0} (Known : LineSet → Type 0) (Sent : Fields → List (Fields × Fields) → Type 0)
    (pairs : List (Fields × Fields)) (a b : Attempt) (s s' : S)
    → pure a s ≡ (ok b, s')
    → Taken Known Sent pairs a
    → Taken Known Sent pairs b
Taken-same Known Sent pairs a b s s' e h =
    let both : (a ≡ b) × (s ≡ s') = ground (arith, e) in subst (Taken Known Sent pairs) both.0 h

both_some : (a b : Bool) → (not a && not b) ≡ true → (a ≡ false) × (b ≡ false)
both_some a b h = ground (arith, h)

module _ {S : Type 0} (c : Client S) (tid : String) (host : Host S)
    (json_loads : String → Option Value) where
  -- the lines of the diff as they were resolved for the run
  abbrev pub Resolved : Run → LineSet → Type 0
  Resolved r lines =
      (t : S) × (t' : S) × (resolve_diff_line_set host.fetch_pr_diff r.diff_line_set t
        ≡ (ok (some lines), t'))

  -- GitHub has answered so to a request with the comments of these findings, and with the body that
  -- counts them
  abbrev pub Sent : Run → String → String → Fields → List (Fields × Fields) → Type 0
  Sent r head trace_url response posted =
      (t : S) × (t' : S) × (host.post_pull_request_review head
          (render_review_body r.pr_number (length posted) trace_url r.ui_url) (comments_in posted) t
        ≡ (ok response, t'))

  post-Sent :
      (r : Run) (head trace_url : String) (posted : List (Fields × Fields)) (response : Fields)
      (t t' : S)
      → post c tid host json_loads r head trace_url posted t ≡ (ok response, t')
      → Sent r head trace_url response posted
  unfolding post
  post-Sent r head trace_url posted response t t' run = (t, t', run)

  -- the second request, or none
  second-Taken :
      (r : Run) (head trace_url error : String) (lines : LineSet)
      (pairs posted : List (Fields × Fields)) (dropped : List String) (s : S) (a : Attempt) (s' : S)
      (b : Bool)
      → Resolved r lines
      → posted ≡ anchored lines pairs
      → dropped ≡ finding_ids (findings_in (unanchored lines pairs))
      → (not (null dropped) && not (null posted)) ≡ b
      → (if b
            then (post c tid host json_loads r head trace_url posted >>= λ again.
                pure (judged_again again posted dropped))
            else pure (failed error (some dropped)))
          s
        ≡ (ok a, s')
      → Taken (Resolved r) (Sent r head trace_url) pairs a
  second-Taken r head trace_url error lines pairs posted dropped s a s' true known is left e run =
      let some_of = both_some (null dropped) (null posted) e in
      let again = then_run-ok (post c tid host json_loads r head trace_url posted s) _ a s' run in
      Taken-same (Resolved r) (Sent r head trace_url) pairs (judged_again again.0 posted dropped) a
        again.1 s' again.3
        (judged_again-Taken (Resolved r) (Sent r head trace_url) again.0 lines pairs posted dropped
          known (post-Sent r head trace_url posted again.0 s again.1 again.2) is left some_of.0
          some_of.1)
  second-Taken r head trace_url error lines pairs posted dropped s a s' false known is left e run =
      Taken-same (Resolved r) (Sent r head trace_url) pairs (failed error (some dropped)) a s s' run
        tt

  retry-Taken :
      (r : Run) (head trace_url : String) (response : Fields) (set : Option LineSet)
      (pairs : List (Fields × Fields)) (s : S) (a : Attempt) (s' t t' : S)
      → resolve_diff_line_set host.fetch_pr_diff r.diff_line_set t ≡ (ok set, t')
      → retry c tid host json_loads r head trace_url response (filter_against set pairs) s
        ≡ (ok a, s')
      → Taken (Resolved r) (Sent r head trace_url) pairs a
  unfolding retry filter_against
  retry-Taken r head trace_url response none pairs s a s' t t' known run =
      Taken-same (Resolved r) (Sent r head trace_url) pairs (failed (error_of response) (some [])) a
        s s' run tt
  retry-Taken r head trace_url response (some lines) pairs s a s' t t' known run =
      let split = split_anchored lines pairs in
      let parts = split_anchored-parts lines pairs in
      second-Taken r head trace_url (error_of response) lines pairs split.0 split.1 s a s'
        (not (null split.1) && not (null split.0)) (t, t', known) parts.0 parts.1 refl run

  answered-Taken :
      (r : Run) (head trace_url : String) (pairs : List (Fields × Fields)) (response : Fields)
      (s : S) (a : Attempt) (s' : S)
      → Sent r head trace_url response pairs
      → answered c tid host json_loads r head trace_url pairs response s ≡ (ok a, s')
      → Taken (Resolved r) (Sent r head trace_url) pairs a
  unfolding answered
  answered-Taken r head trace_url pairs response s a s' sent run =
      decided (is_unresolved response) run
    where
      filtered : filter_against_pr_diff host.fetch_pr_diff r.diff_line_set pairs ≡ (
          resolve_diff_line_set host.fetch_pr_diff r.diff_line_set >>= λ lines.
          pure (filter_against lines pairs))
      filtered = unfold filter_against_pr_diff in refl

      decided :
          (b : Bool)
          → (if b
                then (filter_against_pr_diff host.fetch_pr_diff r.diff_line_set pairs >>= λ split.
                    retry c tid host json_loads r head trace_url response split)
                else pure (judged response pairs []))
              s
            ≡ (ok a, s')
          → Taken (Resolved r) (Sent r head trace_url) pairs a
      decided true run =
          let split =
            then_run-ok (filter_against_pr_diff host.fetch_pr_diff r.diff_line_set pairs s) _ a s'
              run in
          let lines =
            then_run-ok (resolve_diff_line_set host.fetch_pr_diff r.diff_line_set s) _ split.0
              split.1
              (sym
                  (ap (λ (m : S → Result (List (Fields × Fields) × List String) × S). m s) filtered)
                ∙ split.2) in
          let same : (filter_against lines.0 pairs ≡ split.0) × (lines.1 ≡ split.1) =
            ground (arith, lines.3) in
          retry-Taken r head trace_url response lines.0 pairs split.1 a s' s lines.1 lines.2 (
            ap
              (λ (x : List (Fields × Fields) × List String).
                retry c tid host json_loads r head trace_url response x split.1)
              same.0
            ∙ split.3)
      decided false run =
          Taken-same (Resolved r) (Sent r head trace_url) pairs (judged response pairs []) a s s'
            run (judged-Taken (Resolved r) (Sent r head trace_url) response pairs sent)

  -- Whatever GitHub, the diff and the configuration answer: an attempt that returns with a review has an
  -- answer without an error, which GitHub gave to a request with just the comments of the findings that are
  -- reported as posted, and these are all findings that were selected, or, where some of them
  -- have no anchor in the lines of the diff, exactly those that have one, with the ids of the others
  -- given as dropped; then there are some of both.
  pub attempt-Taken :
      (r : Run) (head trace_url : String) (pairs : List (Fields × Fields)) (s : S) (a : Attempt)
      (s' : S)
      → attempt c tid host json_loads r head trace_url pairs s ≡ (ok a, s')
      → Taken (Resolved r) (Sent r head trace_url) pairs a
  unfolding attempt
  attempt-Taken r head trace_url pairs s a s' run =
      let first = then_run-ok (post c tid host json_loads r head trace_url pairs s) _ a s' run in
      answered-Taken r head trace_url pairs first.0 first.1 a s'
        (post-Sent r head trace_url pairs first.0 s first.1 first.2) first.3
