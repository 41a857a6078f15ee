-- ===== src/Common/Spaces.antt =====
-- `str.strip`, `str.split()` and the white space that they know.
use Prim.Native.Char.{Char, code}
use Prim.Native.String.{String, [], ◌∷◌}
use mathlib.Core.List as L
use mathlib.Core.List.{List}
use mathlib.Core.Bool.{Bool, true, false, not, ◌&&◌, ◌||◌}
use mathlib.Core.Path.{◌≡◌, refl, sym, subst, ap, ◌∙◌}
use native.Mathlib.Omega.{arith}
use mathlib.Core.Logic.{inl, inr}
use loupfeed_agents.Common.Tests.{Bool-cases, leb, ◌==◌, if◌then◌else◌}
use loupfeed_agents.Common.Texts.{nonempty, ◌⧺◌, join}
use loupfeed_agents.Common.Lists.{All}

-- `c.isspace()`
unfoldable pub is_space : Char → Bool
is_space c =
    let n = code c in
    (leb 9 n && leb n 13)
    || (leb 28 n && leb n 32)
    || n == 133
    || n == 160
    || n == 5760
    || (leb 8192 n && leb n 8202)
    || n == 8232
    || n == 8233
    || n == 8239
    || n == 8287
    || n == 12288

unfoldable pub lstrip : String → String
unfolding is_space
lstrip [] = ""
lstrip (c ∷ s) = let rest = lstrip s in if is_space c then rest else c ∷ s

unfoldable pub rstrip : String → String
unfolding is_space
rstrip [] = ""
rstrip (c ∷ s) =
    let rest = rstrip s in if nonempty rest then c ∷ rest else if is_space c then "" else c ∷ []

-- `s.strip()`
unfoldable pub strip : String → String
unfolding lstrip rstrip
strip s = lstrip (rstrip s)

words_from : String → String → List String
unfolding is_space
words_from word [] = if nonempty word then L.◌∷◌ word L.[] else L.[]
words_from word (c ∷ s) =
    let rest = words_from (if is_space c then "" else word ⧺ (c ∷ [])) s in
    if is_space c && nonempty word then L.◌∷◌ word rest else rest

-- `s.split()`
unfoldable pub words : String → List String
unfolding words_from
words s = words_from "" s

lstrip-lstrip : (s : String) → lstrip (lstrip s) ≡ lstrip s
unfolding lstrip
lstrip-lstrip [] = refl
lstrip-lstrip (c ∷ s) = ground (arith, lstrip-lstrip s)

rstrip-rstrip : (s : String) → rstrip (rstrip s) ≡ rstrip s
unfolding rstrip
rstrip-rstrip [] = refl
rstrip-rstrip (c ∷ s) = ground (arith, rstrip-rstrip s)

rstrip-lstrip : (s : String) → rstrip s ≡ s → rstrip (lstrip s) ≡ lstrip s
unfolding rstrip lstrip
rstrip-lstrip [] h = refl
rstrip-lstrip (c ∷ s) h = ground (arith, h, rstrip-lstrip s)

-- A stripped text is not stripped further.
pub strip-strip : (s : String) → strip (strip s) ≡ strip s
unfolding strip
strip-strip s = ap lstrip (rstrip-lstrip (rstrip s) (rstrip-rstrip s)) ∙ lstrip-lstrip (rstrip s)

words_from-lstrip : (s : String) → words_from "" (lstrip s) ≡ words_from "" s
unfolding words_from lstrip
words_from-lstrip [] = refl
words_from-lstrip (c ∷ s) = ground (arith, words_from-lstrip s)

words_from_letter :
    (c : Char) (word s : String)
    → is_space c ≡ false
    → words_from word (c ∷ s) ≡ words_from (word ⧺ (c ∷ [])) s
unfolding words_from
words_from_letter c word s e = rw e refl

rstrip_step :
    (c : Char) (word s r : String)
    → ((w : String) → words_from w r ≡ words_from w s)
    → words_from word (if nonempty r then c ∷ r else if is_space c then "" else c ∷ [])
      ≡ words_from word (c ∷ s)
unfolding words_from
rstrip_step c word s (d ∷ r) ih =
    ap (λ (rest : List String). if is_space c && nonempty word then L.◌∷◌ word rest else rest)
      (ih (if is_space c then "" else word ⧺ (c ∷ [])))
rstrip_step c word s [] ih = elim (Bool-cases (is_space c)) [
  | inl e ↦
      rw e (ap (λ (rest : List String). if nonempty word then L.◌∷◌ word rest else rest) (ih ""))
  | inr e ↦ rw e (words_from_letter c word [] e ∙ ih (word ⧺ (c ∷ [])))
]

words_from-rstrip : (word s : String) → words_from word (rstrip s) ≡ words_from word s
unfolding words_from rstrip
words_from-rstrip word [] = refl
words_from-rstrip word (c ∷ s) = rstrip_step c word s (rstrip s) (λ w. words_from-rstrip w s)

-- White space at the ends separates nothing.
pub words-strip : (s : String) → words (strip s) ≡ words s
unfolding words strip
words-strip s = words_from-lstrip (rstrip s) ∙ words_from-rstrip "" s

-- a text that is not empty and has no white space
abbrev is_letters : String → Bool
is_letters [] = true
is_letters (c ∷ s) = not (is_space c) && is_letters s

abbrev IsWord : String → Type 0
IsWord w = (nonempty w ≡ true) × (is_letters w ≡ true)

⧺-empty : (s : String) → s ⧺ "" ≡ s
⧺-empty [] = refl
⧺-empty (c ∷ s) = ap (λ (x : String). c ∷ x) (⧺-empty s)

⧺-assoc : (a b d : String) → (a ⧺ b) ⧺ d ≡ a ⧺ (b ⧺ d)
⧺-assoc [] b d = refl
⧺-assoc (c ∷ a) b d = ap (λ (x : String). c ∷ x) (⧺-assoc a b d)

-- the letters in front are added to the word
words_from-append :
    (w word s : String) → is_letters w ≡ true → words_from word (w ⧺ s) ≡ words_from (word ⧺ w) s
words_from-append [] word s h = ap (λ (x : String). words_from x s) (sym (⧺-empty word))
words_from-append (c ∷ w) word s h =
    let letter : is_space c ≡ false = ground (arith, h) in
    let rest : is_letters w ≡ true = ground (arith, h) in
    words_from_letter c word (w ⧺ s) letter
    ∙ words_from-append w (word ⧺ (c ∷ [])) s rest
    ∙ ap (λ (x : String). words_from x s) (⧺-assoc word (c ∷ []) w)

words_from_space :
    (word s : String)
    → nonempty word ≡ true
    → words_from word (" " ⧺ s) ≡ L.◌∷◌ word (words_from "" s)
unfolding words_from is_space
words_from_space word s h = rw h refl

words_from_end : (word : String) → nonempty word ≡ true → words_from word "" ≡ L.◌∷◌ word L.[]
unfolding words_from
words_from_end word h = rw h refl

words_from-join : (ws : List String) → All IsWord ws → words_from "" (join " " ws) ≡ ws
words_from-join L.[] h = unfold words_from in refl
words_from-join (L.◌∷◌ w L.[]) h =
    ap (words_from "") (sym (⧺-empty w)) ∙ words_from-append w "" "" h.0.1 ∙ words_from_end w h.0.0
words_from-join (L.◌∷◌ w (L.◌∷◌ v ws)) h =
    words_from-append w "" (" " ⧺ join " " (L.◌∷◌ v ws)) h.0.1
    ∙ words_from_space w (join " " (L.◌∷◌ v ws)) h.0.0
    ∙ ap (λ (l : List String). L.◌∷◌ w l) (words_from-join (L.◌∷◌ v ws) h.1)

is_letters-append : (a b : String) → is_letters (a ⧺ b) ≡ (is_letters a && is_letters b)
is_letters-append [] b = refl
is_letters-append (c ∷ a) b = ground (arith, is_letters-append a b)

words_from_break :
    (c : Char) (word s : String)
    → is_space c ≡ true
    → words_from word (c ∷ s)
      ≡ (if nonempty word then L.◌∷◌ word (words_from "" s) else words_from "" s)
unfolding words_from
words_from_break c word s e = rw e refl

added-IsWord :
    (word : String) (rest : List String)
    → is_letters word ≡ true
    → All IsWord rest
    → All IsWord (if nonempty word then L.◌∷◌ word rest else rest)
added-IsWord [] rest h r = r
added-IsWord (c ∷ word) rest h r = ((refl, h), r)

words_from_stop :
    (word : String) → words_from word "" ≡ (if nonempty word then L.◌∷◌ word L.[] else L.[])
unfolding words_from
words_from_stop word = refl

-- behind a character that is a space, or is not
words_from_split :
    (c : Char) (word s : String)
    → is_letters word ≡ true
    → ((w : String) → is_letters w ≡ true → All IsWord (words_from w s))
    → All IsWord (words_from word (c ∷ s))
words_from_split c word s h ih = elim (Bool-cases (is_space c)) [
  | inl e ↦
      subst (All IsWord) (sym (words_from_break c word s e))
        (added-IsWord word (words_from "" s) h (ih "" refl))
  | inr e ↦
      subst (All IsWord) (sym (words_from_letter c word s e))
        (ih (word ⧺ (c ∷ [])) (ground (arith, is_letters-append word (c ∷ []), h, e)))
]

words_from-IsWord : (word s : String) → is_letters word ≡ true → All IsWord (words_from word s)
words_from-IsWord word [] h =
    subst (All IsWord) (sym (words_from_stop word)) (added-IsWord word L.[] h tt)
words_from-IsWord word (c ∷ s) h = words_from_split c word s h (λ w hw. words_from-IsWord w s hw)

-- Words that are joined are split as they were.
pub words-join-words : (s : String) → words (join " " (words s)) ≡ words s
unfolding words
words-join-words s = words_from-join (words_from "" s) (words_from-IsWord "" s refl)
