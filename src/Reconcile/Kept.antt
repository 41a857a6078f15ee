-- ===== src/Reconcile/Kept.antt =====
-- Every sync keeps the id of its finding, and where it reports no change it has changed nothing.
use loupfeed_agents.Common.{
  String, ◌≡◌, refl, Bool, true, false, ◌&&◌, ◌||◌, not, Option, none, some, List, all, null, arith,
  if◌then◌else◌, mem_str, str_eq, Bool-cases, inl, inr,
}
use loupfeed_agents.Json.{
  Value, ℤ, Fields, get, put, get-put, is_str, has_text, int, is_int, eq_text, truthy, text_or,
}
use loupfeed_agents.Reconcile.Match.{Match}
use loupfeed_agents.Reconcile.Sync.{
  Synced, sync_comment, sync_thread, sync_surface, sync_open, sync_resolved_ids, sync_resolved,
  sync_state, sync_thread_status, is_terminal_thread, eq_texts, resolved_ids, all_resolved, mem_int,
}
use loupfeed_agents.Reconcile.Replies.{int_list, str_list}

pub record Kept (f : Fields) (x : Synced) : Type 0 where
  pub id : get "id" x.0 ≡ get "id" f
  pub same : x.1 ≡ false → x.0 ≡ f

pub put-Kept :
    (k : String) (v : Value) (f g : Fields)
    → str_eq k "id" ≡ false
    → get "id" g ≡ get "id" f
    → Kept f (put k v g, true)
put-Kept k v f g ne h = record { id = simp (get-put, ne, h); same = λ e. absurd (cc e) }

sync_open-Kept : (f : Fields) (x : Synced) → Kept f x → Kept f (sync_open x)
unfolding sync_open
sync_open-Kept f (g, u) k = elim (Bool-cases (eq_text (get "status" g) "open")) [
  | inl h ↦ rw h (put-Kept "status" _ f g refl k.id)
  | inr h ↦ rw h k
]

sync_resolved_ids-Kept :
    (f : Fields) (ms : List Match) (x : Synced) → Kept f x → Kept f (sync_resolved_ids ms x)
unfolding sync_resolved_ids
sync_resolved_ids-Kept f ms (g, u) k =
    elim (Bool-cases (
      eq_texts (resolved_ids (str_list (get "github_resolved_thread_ids" g)) ms)
        (str_list (get "github_resolved_thread_ids" g)))) [
          | inl h ↦ rw h k
          | inr h ↦ rw h (put-Kept "github_resolved_thread_ids" _ f g refl k.id)
        ]

sync_resolved-Kept :
    (f : Fields) (ms : List Match) (x : Synced) → Kept f x → Kept f (sync_resolved ms x)
unfolding sync_resolved
sync_resolved-Kept f ms (g, u) k =
    elim (Bool-cases (all_resolved ms && not (truthy (get "github_thread_resolved" g)))) [
      | inl h ↦ rw h (put-Kept "github_thread_resolved" _ f g refl k.id)
      | inr h ↦ rw h k
    ]

sync_state-Kept : (f : Fields) (ms : List Match) (x : Synced) → Kept f x → Kept f (sync_state ms x)
unfolding sync_state
sync_state-Kept f ms (g, u) k = elim (Bool-cases (is_str (get "id" g))) [
  | inl h ↦ rw h (put-Kept "surface" _ f g refl k.id)
  | inr h ↦ rw h k
]

pub nothing-Kept : (f : Fields) → Kept f (f, false)
nothing-Kept f = record { id = refl; same = λ e. refl }

pub sync_thread_status-Kept : (f : Fields) (ms : List Match) → Kept f (sync_thread_status f ms)
unfolding sync_thread_status
sync_thread_status-Kept f ms =
    elim (Bool-cases (null ms || not (all (λ (m : Match). is_terminal_thread m.0) ms))) [
      | inl h ↦ rw h (nothing-Kept f)
      | inr h ↦ rw h (
          sync_state-Kept f ms _ (
            sync_resolved-Kept f ms _
              (sync_resolved_ids-Kept f ms _ (sync_open-Kept f (f, false) (nothing-Kept f)))))
    ]

pub sync_surface-Kept :
    (f : Fields) (comment : Option ℤ) (v : Value) (x : Synced)
    → Kept f x
    → Kept f (sync_surface comment v x)
unfolding sync_surface
sync_surface-Kept f comment v (g, u) k = elim (Bool-cases (is_str (get "id" g))) [
  | inl h ↦ rw h (put-Kept "surface" _ f g refl k.id)
  | inr h ↦ rw h k
]

-- a first write that may be made, in front of a second
put_first :
    (b : Bool) (j : String) (v : Value) (f g : Fields) (u : Bool)
    → str_eq j "id" ≡ false
    → Kept f (g, u)
    → Kept f ((if b then put j v g else g), u || b)
put_first true j v f g u ne k = record {
  id = simp (get-put, ne, k.id);
  same = λ e. absurd (ground (arith, e));
}
put_first false j v f g u ne k = record { id = k.id; same = λ e. k.same (ground (arith, e)) }

pub sync_comment-Kept :
    (f : Fields) (comment : Option ℤ) (x : Synced) → Kept f x → Kept f (sync_comment comment x)
unfolding sync_comment
sync_comment-Kept f none (g, u) k = k
sync_comment-Kept f (some z) (g, u) k =
    let fresh = not (is_int (get "github_review_comment_id" g)) in
    let g' = if fresh then put "github_review_comment_id" (int z) g else g in
    let first : Kept f (g', u || fresh) =
      put_first fresh "github_review_comment_id" (int z) f g u refl k in
    elim (Bool-cases (mem_int z (int_list (get "github_review_comment_ids" g')))) [
      | inl h ↦ rw h first
      | inr h ↦ rw h (put-Kept "github_review_comment_ids" _ f g' refl first.id)
    ]

pub sync_thread-Kept : (f : Fields) (v : Value) (x : Synced) → Kept f x → Kept f (sync_thread v x)
unfolding sync_thread
sync_thread-Kept f v (g, u) k =
    let fresh = not (has_text (get "github_review_thread_id" g)) && has_text v in
    let g' = if fresh then put "github_review_thread_id" v g else g in
    let first : Kept f (g', u || fresh) =
      put_first fresh "github_review_thread_id" v f g u refl k in
    elim (Bool-cases
      (has_text v && not (mem_str (text_or v "") (str_list (get "github_review_thread_ids" g'))))) [
        | inl h ↦ rw h (put-Kept "github_review_thread_ids" _ f g' refl first.id)
        | inr h ↦ rw h first
      ]
