-- ===== src/Queue/Delivery.antt =====
-- Plain texts are delivered once each, in the order of their arrival.
use Prim.Native.String.{[] as empty_text, ◌∷◌ as char_then}
use loupfeed_agents.Common.{
  String, ◌≡◌, refl, sym, ap, ◌∙◌, subst, inr, true, Option, none, some, List, [], ◌∷◌, ◌++◌, map,
  all, append_assoc, append-nil, nonempty, all-append, &&-eq-true,
}
use mathlib.Core.List.{map-append}
use loupfeed_agents.Json.{Value, has_text, null, bool, int, str, list, dict, get, as_dict}
use loupfeed_agents.Queue.Store.{Store, message, absent}
use loupfeed_agents.Queue.Blocks.{
  Env, text_block, content_blocks, messages_blocks, resolved_model_id,
}
use loupfeed_agents.Queue.Check.{inject, injected}
use loupfeed_agents.Queue.Fifo.{
  Event, queued, checked, Reply, taken, blocks, Fifo, replies, left, run, IsReliable, Holds,
  run-replies,
}

-- the contents that arrive
abbrev pub arrived : List Event → List Value
arrived [] = []
arrived (queued content ∷ es) = content ∷ arrived es
arrived (checked env ∷ es) = arrived es

-- all blocks that are injected
abbrev pub delivered : List Reply → List Value
delivered [] = []
delivered (taken b ∷ rs) = delivered rs
delivered (blocks none ∷ rs) = delivered rs
delivered (blocks (some bs) ∷ rs) = bs ++ delivered rs

content_blocks-text :
    (env : Env) (model : Option String) (c : Value)
    → has_text c ≡ true
    → content_blocks env model c ≡ some (text_block c ∷ [])
unfolding content_blocks has_text
content_blocks-text env model (str empty_text) h = absurd (cc h)
content_blocks-text env model (str (char_then k s)) h = refl
content_blocks-text env model null h = absurd (cc h)
content_blocks-text env model (bool b) h = absurd (cc h)
content_blocks-text env model (int z) h = absurd (cc h)
content_blocks-text env model (list l) h = absurd (cc h)
content_blocks-text env model (dict d) h = absurd (cc h)

text_blocks :
    (env : Env) (model : Option String) (q : Fifo)
    → all has_text q ≡ true
    → messages_blocks env model (map message q) ≡ some (map text_block q)
unfolding messages_blocks get as_dict
text_blocks env model [] h = refl
text_blocks env model (c ∷ q) h =
    let both = &&-eq-true (has_text c) (all has_text q) h in
    rw (content_blocks-text env model c both.0, text_blocks env model q both.1) refl

delivered-inject :
    (env : Env) (q : Fifo) (rs : List Reply)
    → all has_text q ≡ true
    → delivered (blocks (inject env (map message q)) ∷ rs) ≡ map text_block q ++ delivered rs
unfolding inject
delivered-inject env q rs h =
    rw (text_blocks env (resolved_model_id env (map message q)) q h) (shown q)
  where
    shown :
        (q : Fifo)
        → delivered (blocks (injected (some (map text_block q))) ∷ rs)
          ≡ map text_block q ++ delivered rs
    shown [] = refl
    shown (c ∷ q) = refl

delivered-replies :
    (env : Env) (es : List Event) (q : Fifo)
    → all has_text (q ++ arrived es) ≡ true
    → delivered (replies q (es ++ checked env ∷ [])) ≡ map text_block (q ++ arrived es)
unfolding replies
delivered-replies env [] q h =
    delivered-inject env q [] (ap (all has_text) (sym (append-nil q)) ∙ h)
    ∙ append-nil (map text_block q)
    ∙ ap (map text_block) (sym (append-nil q))
delivered-replies env (queued c ∷ es) q h =
    delivered-replies env es (q ++ c ∷ [])
      (ap (all has_text) (append_assoc q (c ∷ []) (arrived es)) ∙ h)
    ∙ ap (map text_block) (append_assoc q (c ∷ []) (arrived es))
delivered-replies env (checked e ∷ es) q h =
    let both =
      &&-eq-true (all has_text q) (all has_text (arrived es))
        (sym (all-append has_text q (arrived es)) ∙ h) in
    delivered-inject e q (replies [] (es ++ checked env ∷ [])) both.0
    ∙ ap (λ (l : List Value). map text_block q ++ l) (delivered-replies env es [] both.1)
    ∙ sym (map-append text_block q (arrived es))

left-checked : (env : Env) (es : List Event) (q : Fifo) → left q (es ++ checked env ∷ []) ≡ []
unfolding left
left-checked env [] q = refl
left-checked env (queued c ∷ es) q = left-checked env es (q ++ c ∷ [])
left-checked env (checked e ∷ es) q = left-checked env es []

module _ {S : Type 0} (st : Store S) (tid : String) where
  -- With a named thread, a store whose calls on it succeed, and no item in the store: over events
  -- whose messages are texts that are not empty, with a check at the end, all messages are
  -- injected, each once, as one text block, in the order of their arrival, and none is left.
  pub run-delivered :
      (works : IsReliable st tid) (env : Env) (es : List Event) (s : S)
      → nonempty tid ≡ true
      → st.read tid s ≡ absent
      → all has_text (arrived es) ≡ true
      → (delivered (run st tid s (es ++ checked env ∷ [])).0 ≡ map text_block (arrived es))
        × Holds st tid (run st tid s (es ++ checked env ∷ [])).1 []
  run-delivered works env es s named empty texts =
      let r = run-replies st tid works (es ++ checked env ∷ []) s [] named (inr (empty, refl)) in
      (
        ap delivered r.0 ∙ delivered-replies env es [] texts,
        subst (Holds st tid (run st tid s (es ++ checked env ∷ [])).1) (left-checked env es []) r.1,
      )
