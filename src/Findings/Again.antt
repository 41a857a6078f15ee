-- ===== src/Findings/Again.antt =====
-- Repeating an interaction, and a read that fails: `append_finding_interaction` and
-- `append_finding` on the paths that write nothing, or too much.
use loupfeed_agents.Common.{
  String, ◌≡◌, refl, sym, ap, ◌∙◌, Bool, true, false, Option, some, List, [], ◌∷◌, ◌++◌, arith, any,
  Bool-cases, inl, inr,
}
use loupfeed_agents.Json.{Value, Fields, field, end, get, is_int, eq_text}
use loupfeed_agents.Findings.Coerce.{coerce_findings_list, findings_value}
use loupfeed_agents.Findings.Client.{Client, IsMerging, Fetch, found, failed, done}
use loupfeed_agents.Findings.Mutate.{
  read_metadata, ok, Mutated, list_findings, get_thread_metadata, mutate_findings, store_mutated,
  edit_first, then_run, pure,
}
use loupfeed_agents.Findings.Stored.{edit_first_hit, edit_first_miss, stored-done}
use loupfeed_agents.Findings.Operations.{
  append_finding_interaction-Updated, interaction_edit_again, interaction_edit-IsEdit,
}
use loupfeed_agents.Findings.Update.{
  append_mutator, append_finding, interaction_edit, append_finding_interaction,
}

-- The edit of a list reaches the first finding with the id.
edit_first_at :
    (fid : String) (edit : Fields → Fields × Bool) (before : List Fields) (f : Fields)
    (behind : List Fields)
    → any (λ g. eq_text (get "id" g) fid) before ≡ false
    → eq_text (get "id" f) fid ≡ true
    → edit_first fid edit (before ++ f ∷ behind) ≡ record {
      findings = before ++ (edit f).0 ∷ behind;
      changed = (edit f).1;
      captured = some (edit f).0;
    }
edit_first_at fid edit [] f behind before_no hit = edit_first_hit fid edit f behind hit
edit_first_at fid edit (g ∷ before) f behind before_no hit =
    elim (Bool-cases (eq_text (get "id" g) fid)) [
      | inl hit_g ↦ absurd (ground (arith, before_no, hit_g))
      | inr miss_g ↦
          edit_first_miss fid edit g (before ++ f ∷ behind) miss_g
          ∙ ap (λ (m : Mutated (Option Fields)). record m { findings = g ∷ m.findings })
              (edit_first_at fid edit before f behind (ground (arith, before_no, miss_g)) hit)
    ]

module _ {S : Type 0} (c : Client S) (tid : String) (s : S) where
  mutate-read :
      {A : Type 0} (mutator : List Fields → Mutated A) (fs : List Fields)
      → list_findings c tid s ≡ (ok fs, s)
      → mutate_findings c tid mutator s ≡ store_mutated c tid (mutator fs) s
  unfolding mutate_findings
  mutate-read mutator fs h = ap (then_run (λ (l : List Fields). store_mutated c tid (mutator l))) h

  store-unchanged :
      {A : Type 0} (m : Mutated A)
      → m.changed ≡ false
      → store_mutated c tid m s ≡ (ok m.captured, s)
  unfolding store_mutated
  store-unchanged m e = rw e

  list_findings-failed : c.fetch tid s ≡ failed → list_findings c tid s ≡ (ok [], s)
  unfolding list_findings get_thread_metadata read_metadata
  list_findings-failed h =
      ap
        (λ (o : Fetch).
          then_run (λ (md : Fields). pure (coerce_findings_list (get "findings" md)))
            (read_metadata tid s o))
        h

  -- When the read of the thread fails, an append that returns has written a list of the new
  -- finding alone over the findings that the thread had.
  pub append_finding-failed :
      (finding r : Fields) (s' : S)
      → c.fetch tid s ≡ failed
      → append_finding c tid finding s ≡ (ok r, s')
      → c.write tid (field "findings" (findings_value (finding ∷ [])) end) s ≡ done s'
  unfolding append_finding append_mutator
  append_finding-failed finding r s' h run =
      (stored-done c tid (append_mutator finding []) s r s' refl
        (sym (mutate-read (append_mutator finding) [] (list_findings-failed h)) ∙ run)).0

-- With a client that merges, on a thread that can be read: appending an interaction with the number
-- of a comment a second time returns the same finding as the first time and writes nothing.
pub append_finding_interaction-append_finding_interaction :
    {S : Type 0} (c : Client S) (merging : IsMerging c) (tid : String) (s : S) (thread : Value)
    (h : c.fetch tid s ≡ found thread) (fid : String) (i : Fields) (f : Fields) (s' : S)
    → is_int (get "github_comment_id" i) ≡ true
    → append_finding_interaction c tid fid i s ≡ (ok (some f), s')
    → append_finding_interaction c tid fid i s' ≡ (ok (some f), s')
unfolding append_finding_interaction
append_finding_interaction-append_finding_interaction c merging tid s thread h fid i f s' int run =
    let updated =
      append_finding_interaction-Updated c merging tid s thread h fid i (some f) s' run in
    let at = updated.1 in
    let g = (interaction_edit i at.target).0 in
    let again = interaction_edit_again i at.target int in
    let id = (interaction_edit-IsEdit i).ids at.target in
    let made = edit_first fid (interaction_edit i) updated.0 in
    let is_made =
      ap (edit_first fid (interaction_edit i)) at.edited
      ∙ edit_first_at fid (interaction_edit i) at.before g at.behind at.first
          (ap (λ (v : Value). eq_text v fid) id ∙ at.hit) in
    mutate-read c tid s' (edit_first fid (interaction_edit i)) updated.0 updated.2
    ∙ store-unchanged c tid s' made (
        ap (λ (m : Mutated (Option Fields)). m.changed) is_made
        ∙ ap (λ (p : Fields × Bool). p.1) again)
    ∙ ap (λ (o : Option Fields). (ok o, s'))
        (ap (λ (m : Mutated (Option Fields)). m.captured) is_made
          ∙ ap (λ (p : Fields × Bool). some p.0) again
          ∙ ap some (sym at.returned))
