-- ===== src/Findings/Threads.antt =====
-- The client over a list of threads keeps the contract of the SDK's client.
use loupfeed_agents.Common.{
  String, ◌≡◌, ◌≢◌, refl, sym, ap, ◌∙◌, true, false, [], ◌∷◌, if◌then◌else◌, str_eq, eq_iff, arith,
  Bool-cases, inl, inr,
}
use loupfeed_agents.Json.{Value, dict, Fields, field, end, get, as_dict, update}
use loupfeed_agents.Findings.Client.{
  Fetch, found, Write, done, missing, broken, IsMerging, metadata_of, Threads, fetch_in, write_in,
  cons_write, list_client,
}

thread_of : Fields → Value
thread_of md = dict (field "metadata" (dict md) end)

metadata_of-thread_of : (md : Fields) → metadata_of (thread_of md) ≡ md
unfolding metadata_of thread_of get as_dict
metadata_of-thread_of md = refl

cons_write-done :
    (t : String × Fields) (w : Write Threads) (s' : Threads)
    → cons_write t w ≡ done s'
    → (ts : Threads) × (w ≡ done ts) × (s' ≡ t ∷ ts)
cons_write-done t (done ts) s' h = (ts, refl, sym (ground (arith, h)))
cons_write-done t missing s' h = absurd (cc h)
cons_write-done t (broken ts) s' h = absurd (cc h)

cons_write-broken :
    (t : String × Fields) (w : Write Threads) (s' : Threads)
    → cons_write t w ≡ broken s'
    → (ts : Threads) × (w ≡ broken ts)
cons_write-broken t (done ts) s' h = absurd (cc h)
cons_write-broken t missing s' h = absurd (cc h)
cons_write-broken t (broken ts) s' h = (ts, refl)

fetch_in_hit :
    (tid t : String) (m : Fields) (ts : Threads)
    → str_eq t tid ≡ true
    → fetch_in tid ((t, m) ∷ ts) ≡ found (thread_of m)
unfolding thread_of
fetch_in_hit tid t m ts h = rw h

fetch_in_miss :
    (tid t : String) (m : Fields) (ts : Threads)
    → str_eq t tid ≡ false
    → fetch_in tid ((t, m) ∷ ts) ≡ fetch_in tid ts
fetch_in_miss tid t m ts h = rw h

write_in_hit :
    (tid t : String) (md m : Fields) (ts : Threads)
    → str_eq t tid ≡ true
    → write_in tid md ((t, m) ∷ ts) ≡ done ((t, update m md) ∷ ts)
write_in_hit tid t md m ts h = rw h

write_in_miss :
    (tid t : String) (md m : Fields) (ts : Threads)
    → str_eq t tid ≡ false
    → write_in tid md ((t, m) ∷ ts) ≡ cons_write (t, m) (write_in tid md ts)
write_in_miss tid t md m ts h = rw h

found_thread :
    (m : Fields) (thread : Value) → found (thread_of m) ≡ found thread → thread ≡ thread_of m
found_thread m thread h = sym (ground (arith, h))

done_inj : (a b : Threads) → done a ≡ done b → b ≡ a
done_inj a b h = sym (ground (arith, h))

merged_in :
    (tid : String) (md : Fields) (s s' : Threads) (thread : Value)
    → fetch_in tid s ≡ found thread
    → write_in tid md s ≡ done s'
    → (thread' : Value) × (fetch_in tid s' ≡ found thread')
      × (metadata_of thread' ≡ update (metadata_of thread) md)
merged_in tid md [] s' thread f w = absurd (cc w)
merged_in tid md ((t, m) ∷ ts) s' thread f w = elim (Bool-cases (str_eq t tid)) [
  | inl h ↦
      let is_s' = done_inj _ s' (sym (write_in_hit tid t md m ts h) ∙ w) in
      let is_thread = found_thread m thread (sym (fetch_in_hit tid t m ts h) ∙ f) in
      (
        thread_of (update m md),
        ap (fetch_in tid) is_s' ∙ fetch_in_hit tid t (update m md) ts h,
        metadata_of-thread_of (update m md)
            ∙ ap (λ (d : Fields). update d md)
                (sym (ap metadata_of is_thread ∙ metadata_of-thread_of m)),
      )
  | inr h ↦
      let behind =
        cons_write-done (t, m) (write_in tid md ts) s' (sym (write_in_miss tid t md m ts h) ∙ w) in
      let ih =
        merged_in tid md ts behind.0 thread (sym (fetch_in_miss tid t m ts h) ∙ f) behind.1 in
      (ih.0, ap (fetch_in tid) behind.2 ∙ fetch_in_miss tid t m behind.0 h ∙ ih.1, ih.2)
]

others_in :
    (tid other : String) (md : Fields) (s s' : Threads)
    → tid ≢ other
    → write_in tid md s ≡ done s'
    → fetch_in other s' ≡ fetch_in other s
others_in tid other md [] s' ne w = absurd (cc w)
others_in tid other md ((t, m) ∷ ts) s' ne w = elim (Bool-cases (str_eq t tid)) [
  | inl h ↦
      let miss : str_eq t other ≡ false = ground (arith, h, ne, eq_iff t tid, eq_iff t other) in
      ap (fetch_in other) (done_inj _ s' (sym (write_in_hit tid t md m ts h) ∙ w))
      ∙ fetch_in_miss other t (update m md) ts miss
      ∙ sym (fetch_in_miss other t m ts miss)
  | inr h ↦
      let behind =
        cons_write-done (t, m) (write_in tid md ts) s' (sym (write_in_miss tid t md m ts h) ∙ w) in
      let ih = others_in tid other md ts behind.0 ne behind.1 in
      ap (fetch_in other) behind.2
      ∙ ap
          (λ (r : Fetch).
            if str_eq t other then found (dict (field "metadata" (dict m) end)) else r)
          ih
]

write_in_unbroken :
    (tid : String) (md : Fields) (s s' : Threads) → ¬ (write_in tid md s ≡ broken s')
write_in_unbroken tid md [] s' w = absurd (cc w)
write_in_unbroken tid md ((t, m) ∷ ts) s' w = elim (Bool-cases (str_eq t tid)) [
  | inl h ↦ absurd (cc (sym (write_in_hit tid t md m ts h) ∙ w))
  | inr h ↦
      let behind =
        cons_write-broken (t, m) (write_in tid md ts) s'
          (sym (write_in_miss tid t md m ts h) ∙ w) in
      write_in_unbroken tid md ts behind.0 behind.1
]

pub list_client-IsMerging : IsMerging list_client
list_client-IsMerging = record {
  merged = merged_in;
  others = others_in;
  torn = λ tid md s s' thread h w. absurd (write_in_unbroken tid md s s' w);
}
