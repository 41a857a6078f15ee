-- ===== src/Publish/Sourced.antt =====
-- Where the comments of a publication come from: the records that GitHub returned.
use loupfeed_agents.Common.{
  String, ◌≡◌, refl, Bool, true, false, Option, none, some, List, [], ◌∷◌, Bool-cases, ◌⊎◌, inl,
  inr, if◌then◌else◌, str_eq, eq_iff, All, arith, subst,
}
use loupfeed_agents.Json.{Value, ℤ, Fields, get, as_str}
use loupfeed_agents.Reconcile.Match.{assoc_get, assoc_put}
use loupfeed_agents.Publish.Stamp.{
  Comments, comment_of, noted, by_marker_id, known, posted_ids, comment_id_by_finding_id,
}

module _ (json_loads : String → Option Value) where
  -- one of the records has the id and the marker of the finding
  abbrev pub Returned : List Fields → String → ℤ → Type 0
  Returned [] fid z = ⊥
  Returned (r ∷ rs) fid z = (comment_of json_loads r ≡ some (fid, z)) ⊎ Returned rs fid z

  -- every entry is one of the records
  abbrev pub Sourced : List Fields → Comments → Type 0
  Sourced records d = All (λ (e : String × ℤ). Returned records e.0 e.1) d

  put-Sourced :
      (records : List Fields) (k : String) (v : ℤ) (d : Comments)
      → Returned records k v
      → Sourced records d
      → Sourced records (assoc_put str_eq k v d)
  put-Sourced records k v [] new old = (new, tt)
  put-Sourced records k v ((j, w) ∷ d) new old = elim (Bool-cases (str_eq j k)) [
    | inl h ↦
        let same : k ≡ j = ground (arith, h, eq_iff j k) in
        rw h (subst (λ (i : String). Returned records i v) same new, old.1)
    | inr h ↦ rw h (old.0, put-Sourced records k v d new old.1)
  ]

  get-Sourced :
      (records : List Fields) (fid : String) (z : ℤ) (d : Comments)
      → Sourced records d
      → assoc_get str_eq fid d ≡ some z
      → Returned records fid z
  get-Sourced records fid z [] all h = absurd (cc h)
  get-Sourced records fid z ((j, w) ∷ d) all h =
      at (str_eq j fid) refl h (get-Sourced records fid z d all.1)
    where
      at :
          (b : Bool)
          → str_eq j fid ≡ b
          → (if b then some w else assoc_get str_eq fid d) ≡ some z
          → (assoc_get str_eq fid d ≡ some z → Returned records fid z)
          → Returned records fid z
      at true e h behind =
          let same : j ≡ fid = ground (arith, e, eq_iff j fid) in
          let value : w ≡ z = ground (arith, h) in
          subst (λ (i : String). Returned records i z) same
            (subst (λ (x : ℤ). Returned records j x) value all.0)
      at false e h behind = behind h

  noted-Sourced :
      (records : List Fields) (o : Option (String × ℤ)) (d : Comments)
      → ((fid : String) (z : ℤ) → o ≡ some (fid, z) → Returned records fid z)
      → Sourced records d
      → Sourced records (noted o d)
  unfolding noted
  noted-Sourced records none d from old = old
  noted-Sourced records (some (k, z)) d from old = put-Sourced records k z d (from k z refl) old

  by_marker_id-Sourced :
      (records rs : List Fields) (d : Comments)
      → ((fid : String) (z : ℤ) → Returned rs fid z → Returned records fid z)
      → Sourced records d
      → Sourced records (by_marker_id json_loads rs d)
  unfolding by_marker_id
  by_marker_id-Sourced records [] d among old = old
  by_marker_id-Sourced records (r ∷ rs) d among old =
      by_marker_id-Sourced records rs (noted (comment_of json_loads r) d)
        (λ fid z h. among fid z (inr h))
        (noted-Sourced records (comment_of json_loads r) d (λ fid z h. among fid z (inl h)) old)

  known-Sourced :
      (records : List Fields) (markers : Comments) (o : Option String) (d : Comments)
      → Sourced records markers
      → Sourced records d
      → Sourced records (known markers o d)
  unfolding known
  known-Sourced records markers none d marked old = old
  known-Sourced records markers (some fid) d marked old = under (assoc_get str_eq fid markers) refl
    where
      under :
          (o : Option ℤ)
          → assoc_get str_eq fid markers ≡ o
          → Sourced records (elim o [ none ↦ d | some z ↦ assoc_put str_eq fid z d ])
      under none h = old
      under (some z) h =
          put-Sourced records fid z d (get-Sourced records fid z markers marked h) old

  posted_ids-Sourced :
      (records : List Fields) (markers : Comments) (fs : List Fields) (d : Comments)
      → Sourced records markers
      → Sourced records d
      → Sourced records (posted_ids markers fs d)
  unfolding posted_ids
  posted_ids-Sourced records markers [] d marked old = old
  posted_ids-Sourced records markers (f ∷ fs) d marked old =
      posted_ids-Sourced records markers fs (known markers (as_str (get "id" f)) d) marked
        (known-Sourced records markers (as_str (get "id" f)) d marked old)

  -- The comments of findings are those that GitHub returned with the markers of the findings.
  pub comment_id_by_finding_id-Sourced :
      (posted records : List Fields)
      → Sourced records (comment_id_by_finding_id json_loads posted records)
  unfolding comment_id_by_finding_id
  comment_id_by_finding_id-Sourced posted records =
      posted_ids-Sourced records (by_marker_id json_loads records []) posted []
        (by_marker_id-Sourced records records [] (λ fid z h. h) tt) tt
