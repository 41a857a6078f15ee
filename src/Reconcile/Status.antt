-- ===== src/Reconcile/Status.antt =====
-- The status of a finding behind a reconciliation.
use loupfeed_agents.Common.{
  String, ◌≡◌, refl, ap, ◌∙◌, Bool, true, false, ◌&&◌, ◌||◌, not, Option, none, some, List, [], ◌∷◌,
  all, null, arith, if◌then◌else◌, mem_str, str_eq, Bool-cases, inl, inr,
}
use loupfeed_agents.Json.{
  Value, ℤ, int, str, Fields, get, put, get-put, is_str, is_int, has_text, eq_text, truthy, text_or,
}
use loupfeed_agents.Reconcile.Replies.{int_list, str_list}
use loupfeed_agents.Reconcile.Match.{Match, Index, find_review_threads_for_finding}
use loupfeed_agents.Reconcile.Sync.{
  Synced, mem_int, sync_comment, sync_thread, sync_surface, sync_publication_identity, sync_open,
  sync_resolved_ids, sync_resolved, sync_state, sync_thread_status, is_terminal_thread, eq_texts,
  resolved_ids, all_resolved,
}
use loupfeed_agents.Reconcile.Latest.{
  sync_latest_human_reply, sync_reply, sync_reply_known, sync_reply_new, get-with_interaction,
  noted, reply_text, reply_target, latest_to,
}
use loupfeed_agents.Reconcile.Run.{sync_matches, reconcile_finding}

abbrev status_of : Fields → Value
status_of f = get "status" f

put_if_status :
    (b : Bool) (k : String) (v : Value) (f : Fields)
    → str_eq k "status" ≡ false
    → status_of (if b then put k v f else f) ≡ status_of f
put_if_status true k v f ne = simp (get-put, ne)
put_if_status false k v f ne = refl

sync_comment_status :
    (comment : Option ℤ) (x : Synced) → status_of (sync_comment comment x).0 ≡ status_of x.0
unfolding sync_comment
sync_comment_status none (g, u) = refl
sync_comment_status (some z) (g, u) =
    let fresh = not (is_int (get "github_review_comment_id" g)) in
    let g' = if fresh then put "github_review_comment_id" (int z) g else g in
    let first : status_of g' ≡ status_of g =
      put_if_status fresh "github_review_comment_id" (int z) g refl in
    elim (Bool-cases (mem_int z (int_list (get "github_review_comment_ids" g')))) [
      | inl h ↦ rw h first
      | inr h ↦ rw h (get-put "github_review_comment_ids" "status" _ g' ∙ first)
    ]

sync_thread_status_same : (v : Value) (x : Synced) → status_of (sync_thread v x).0 ≡ status_of x.0
unfolding sync_thread
sync_thread_status_same v (g, u) =
    let fresh = not (has_text (get "github_review_thread_id" g)) && has_text v in
    let g' = if fresh then put "github_review_thread_id" v g else g in
    let first : status_of g' ≡ status_of g =
      put_if_status fresh "github_review_thread_id" v g refl in
    elim (Bool-cases
      (has_text v && not (mem_str (text_or v "") (str_list (get "github_review_thread_ids" g'))))) [
        | inl h ↦ rw h (get-put "github_review_thread_ids" "status" _ g' ∙ first)
        | inr h ↦ rw h first
      ]

sync_surface_status :
    (comment : Option ℤ) (v : Value) (x : Synced)
    → status_of (sync_surface comment v x).0 ≡ status_of x.0
unfolding sync_surface
sync_surface_status comment v (g, u) = elim (Bool-cases (is_str (get "id" g))) [
  | inl h ↦ rw h (get-put "surface" "status" _ g)
  | inr h ↦ rw h refl
]

sync_publication_identity_status :
    (f : Fields) (m : Match) → status_of (sync_publication_identity f m).0 ≡ status_of f
unfolding sync_publication_identity
sync_publication_identity_status f (thread, comment) =
    let first = sync_comment comment (f, false) in
    sync_surface_status comment (get "id" thread) (sync_thread (get "id" thread) first)
    ∙ sync_thread_status_same (get "id" thread) first
    ∙ sync_comment_status comment (f, false)

noted_status : (reply f : Fields) → status_of (noted reply f) ≡ status_of f
unfolding noted
noted_status reply f = simp get-put

sync_reply_status :
    (target : Value) (o : Option Fields) (f : Fields)
    → status_of (sync_reply target o f).0 ≡ status_of f
sync_reply_status target none f = unfold sync_reply in refl
sync_reply_status target (some reply) f =
    elim (Bool-cases (eq_text (get "last_human_reply_at" f) (reply_text "created_at" reply))) [
      | inl h ↦ ap (λ (x : Fields × Bool). status_of x.0) (sync_reply_known target reply f h)
      | inr h ↦
          ap (λ (x : Fields × Bool). status_of x.0) (sync_reply_new target reply f h)
          ∙ get-with_interaction "status" target reply (noted reply f) refl
          ∙ noted_status reply f
    ]

sync_latest_human_reply_status :
    (f : Fields) (m : Match) → status_of (sync_latest_human_reply f m).0 ≡ status_of f
unfolding sync_latest_human_reply
sync_latest_human_reply_status f m =
    sync_reply_status (reply_target f m) (latest_to (reply_target f m) m.0) f

sync_matches_status :
    (ms : List Match) (x : Synced) → status_of (sync_matches ms x).0 ≡ status_of x.0
unfolding sync_matches
sync_matches_status [] (g, u) = refl
sync_matches_status (m ∷ ms) (g, u) =
    let published = sync_publication_identity g m in
    let replied = sync_latest_human_reply published.0 m in
    sync_matches_status ms (replied.0, replied.1 || (published.1 || u))
    ∙ sync_latest_human_reply_status published.0 m
    ∙ sync_publication_identity_status g m

sync_open_status :
    (x : Synced)
    → status_of (sync_open x).0
      ≡ (if eq_text (status_of x.0) "open" then str "resolved" else status_of x.0)
unfolding sync_open
sync_open_status (g, u) = elim (Bool-cases (eq_text (status_of g) "open")) [
  | inl h ↦ rw h (get-put "status" "status" (str "resolved") g)
  | inr h ↦ rw h refl
]

sync_resolved_ids_status :
    (ms : List Match) (x : Synced) → status_of (sync_resolved_ids ms x).0 ≡ status_of x.0
unfolding sync_resolved_ids
sync_resolved_ids_status ms (g, u) =
    elim (Bool-cases (
      eq_texts (resolved_ids (str_list (get "github_resolved_thread_ids" g)) ms)
        (str_list (get "github_resolved_thread_ids" g)))) [
          | inl h ↦ rw h refl
          | inr h ↦ rw h (get-put "github_resolved_thread_ids" "status" _ g)
        ]

sync_resolved_status :
    (ms : List Match) (x : Synced) → status_of (sync_resolved ms x).0 ≡ status_of x.0
unfolding sync_resolved
sync_resolved_status ms (g, u) =
    elim (Bool-cases (all_resolved ms && not (truthy (get "github_thread_resolved" g)))) [
      | inl h ↦ rw h (get-put "github_thread_resolved" "status" _ g)
      | inr h ↦ rw h refl
    ]

sync_state_status : (ms : List Match) (x : Synced) → status_of (sync_state ms x).0 ≡ status_of x.0
unfolding sync_state
sync_state_status ms (g, u) = elim (Bool-cases (is_str (get "id" g))) [
  | inl h ↦ rw h (get-put "surface" "status" _ g)
  | inr h ↦ rw h refl
]

-- Every thread that belongs to the finding is resolved or outdated, and there is one.
unfoldable pub is_settled : List Match → Bool
unfolding is_terminal_thread
is_settled ms = not (null ms) && all (λ (m : Match). is_terminal_thread m.0) ms

open_guard :
    (ms : List Match)
    → is_settled ms ≡ true
    → (null ms || not (all (λ (m : Match). is_terminal_thread m.0) ms)) ≡ false
unfolding is_settled
open_guard ms h = ground (arith, h)

shut_guard :
    (ms : List Match)
    → is_settled ms ≡ false
    → (null ms || not (all (λ (m : Match). is_terminal_thread m.0) ms)) ≡ true
unfolding is_settled
shut_guard ms h = ground (arith, h)

sync_thread_status-is_settled :
    (f : Fields) (ms : List Match)
    → status_of (sync_thread_status f ms).0
      ≡ (if is_settled ms && eq_text (status_of f) "open" then str "resolved" else status_of f)
unfolding sync_thread_status
sync_thread_status-is_settled f ms = elim (Bool-cases (is_settled ms)) [
  | inl h ↦ rw h (
      ap
        (λ (b : Bool).
          status_of
            (if b
              then (f, false)
              else sync_state ms
                  (sync_resolved ms (sync_resolved_ids ms (sync_open (f, false))))).0)
        (open_guard ms h)
      ∙ sync_state_status ms (sync_resolved ms (sync_resolved_ids ms (sync_open (f, false))))
      ∙ sync_resolved_status ms (sync_resolved_ids ms (sync_open (f, false)))
      ∙ sync_resolved_ids_status ms (sync_open (f, false))
      ∙ sync_open_status (f, false))
  | inr h ↦ rw h (
      ap
        (λ (b : Bool).
          status_of
            (if b
              then (f, false)
              else sync_state ms
                  (sync_resolved ms (sync_resolved_ids ms (sync_open (f, false))))).0)
        (shut_guard ms h))
]

-- A reconciliation resolves a finding that is open exactly when a thread belongs to it and all that
-- do are resolved or outdated; in every other case its status is as it was.
pub reconcile_finding-is_settled :
    (idx : Index) (f : Fields)
    → get "status" (reconcile_finding idx f).0 ≡ (
        if is_settled (find_review_threads_for_finding f idx) && eq_text (get "status" f) "open"
        then str "resolved"
        else get "status" f)
unfolding reconcile_finding
reconcile_finding-is_settled idx f =
    let ms = find_review_threads_for_finding f idx in
    sync_thread_status-is_settled (sync_matches ms (f, false)).0 ms
    ∙ ap (λ (v : Value). if is_settled ms && eq_text v "open" then str "resolved" else v)
        (sync_matches_status ms (f, false))
