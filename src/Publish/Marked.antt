-- ===== src/Publish/Marked.antt =====
-- The marker of a rendered comment is read back from it, whatever its text says.
use Prim.Native.String.{[] as empty_text, ◌∷◌ as char_then}
use loupfeed_agents.Common.{
  Char, String, ◌≡◌, refl, ap, subst, ◌∙◌, Bool, true, false, ◌&&◌, not, Option, none, some, [],
  ◌∷◌, arith, code, Bool-cases, inl, inr, Bool-cases, inl, inr, ◌==◌, join, ◌⧺◌, ◌>>=◌,
}
use loupfeed_agents.Json.{
  Value, str, dict, Fields, get, has_text, text_or, in_texts, null, has, get-of-has-false, as_dict,
}
use loupfeed_agents.Reconcile.Marker.{
  ReviewCommentMarker, take_group, marker_here, search_marker, parse_review_comment_marker,
  optional_int, marker_of, side_text, side_text,
}
use loupfeed_agents.Publish.Render.{
  marker_payload, comment_marker, comment_lines, render_inline_comment_body, get_else,
  suggestion_block, text_default,
}

-- no closing brace in the text
abbrev pub no_brace : String → Bool
no_brace empty_text = true
no_brace (char_then c s) = not (code c == 125) && no_brace s

brace_free :
    (c : Char) (b : Bool)
    → (not (code c == 125) && b) ≡ true
    → ((code c == 125) ≡ false) × (b ≡ true)
brace_free c b h = ground (arith, h)

⧺-assoc : (a b d : String) → (a ⧺ b) ⧺ d ≡ a ⧺ (b ⧺ d)
⧺-assoc empty_text b d = refl
⧺-assoc (char_then c a) b d = ap (λ (s : String). char_then c s) (⧺-assoc a b d)

take_group-end : (acc tail : String) → take_group acc ("}" ⧺ (" -->" ⧺ tail)) ≡ some (acc ⧺ "}")
unfolding take_group
take_group-end acc tail = refl

take_group-step :
    (c : Char) (acc s : String)
    → (code c == 125) ≡ false
    → take_group acc (char_then c s) ≡ take_group (acc ⧺ char_then c empty_text) s
unfolding take_group
take_group-step c acc s h = rw h

take_group-mid :
    (mid acc tail : String)
    → no_brace mid ≡ true
    → take_group acc (mid ⧺ ("}" ⧺ (" -->" ⧺ tail))) ≡ some (acc ⧺ (mid ⧺ "}"))
take_group-mid empty_text acc tail h = take_group-end acc tail
take_group-mid (char_then c mid) acc tail h =
    let (here, rest) = brace_free c (no_brace mid) h in
    take_group-step c acc (mid ⧺ ("}" ⧺ (" -->" ⧺ tail))) here
    ∙ take_group-mid mid (acc ⧺ char_then c empty_text) tail rest
    ∙ ap some (⧺-assoc acc (char_then c empty_text) (mid ⧺ "}"))

marker_here-comment_marker :
    (mid tail : String)
    → no_brace mid ≡ true
    → marker_here ("<!-- open-swe-review-comment " ⧺ (("{" ⧺ (mid ⧺ "}")) ⧺ (" -->" ⧺ tail)))
      ≡ some ("{" ⧺ (mid ⧺ "}"))
unfolding marker_here
marker_here-comment_marker mid tail h =
    ap (take_group "{") (⧺-assoc mid "}" (" -->" ⧺ tail)) ∙ take_group-mid mid "{" tail h

search_marker-here :
    (c : Char) (s g : String)
    → marker_here (char_then c s) ≡ some g
    → search_marker (char_then c s) ≡ some g
unfolding search_marker
search_marker-here c s g h =
    ap (λ (o : Option String). elim o [ none ↦ search_marker s | some k ↦ some k ]) h

-- The search finds the marker in front of any text, where its JSON has no brace but at its ends.
search_marker-comment_marker :
    (mid x y : String)
    → no_brace mid ≡ true
    → search_marker ((comment_marker ("{" ⧺ (mid ⧺ "}")) ⧺ x) ⧺ y) ≡ some ("{" ⧺ (mid ⧺ "}"))
unfolding comment_marker
search_marker-comment_marker mid x y h =
    let json = "{" ⧺ (mid ⧺ "}") in
    let flat : ("<!-- open-swe-review-comment " ⧺ (json ⧺ " -->") ⧺ x) ⧺ y
        ≡ "<!-- open-swe-review-comment " ⧺ (json ⧺ (" -->" ⧺ (x ⧺ y))) =
      ap (λ (t : String). "<!-- open-swe-review-comment " ⧺ t)
        (⧺-assoc (json ⧺ " -->") x y ∙ ⧺-assoc json " -->" (x ⧺ y)) in
    ap search_marker flat ∙ search_marker-here _ _ json (marker_here-comment_marker mid (x ⧺ y) h)

get_else-get :
    (k : String) (v : Value) (f : Fields) → has_text (get k f) ≡ true → get_else k v f ≡ get k f
unfolding get_else
get_else-get k v f h = elim (Bool-cases (has k f)) [
  | inl e ↦ rw e refl
  | inr e ↦ absurd (missing (get k f) (get-of-has-false k f e) h)
]
  where
    missing : (x : Value) → x ≡ null → has_text x ≡ true → ⊥
    missing x e h =
        let none_there : has_text null ≡ true = subst (λ (y : Value). has_text y ≡ true) e h in
        unfold has_text in cc none_there

-- the marker of a finding
abbrev pub own_marker : Fields → ReviewCommentMarker
own_marker f = record {
  id = text_or (get "id" f) "";
  file_path = text_or (get "file" f) "";
  start_line = optional_int (get "start_line" f);
  end_line = optional_int (get "end_line" f);
  side = text_or (get_else "side" (str "RIGHT") f) "RIGHT";
}

side_text-marker_payload :
    (f : Fields)
    → in_texts (get_else "side" (str "RIGHT") f) ("LEFT" ∷ "RIGHT" ∷ []) ≡ true
    → side_text (marker_payload f) ≡ some (text_or (get_else "side" (str "RIGHT") f) "RIGHT")
unfolding side_text marker_payload
side_text-marker_payload f h = rw h refl

marker_of-side :
    (payload : Fields) (side : String)
    → side_text payload ≡ some side
    → has_text (get "id" payload) ≡ true
    → has_text (get "file_path" payload) ≡ true
    → marker_of payload
      ≡ some (record {
        id = text_or (get "id" payload) "";
        file_path = text_or (get "file_path" payload) "";
        start_line = optional_int (get "start_line" payload);
        end_line = optional_int (get "end_line" payload);
        side = side;
      })
unfolding marker_of
marker_of-side payload side h id file = ground (arith, h, id, file)

marker_of-marker_payload :
    (f : Fields)
    → has_text (get "id" f) ≡ true
    → has_text (get "file" f) ≡ true
    → in_texts (get_else "side" (str "RIGHT") f) ("LEFT" ∷ "RIGHT" ∷ []) ≡ true
    → marker_of (marker_payload f) ≡ some (own_marker f)
unfolding marker_payload get
marker_of-marker_payload f id file side =
    let id_is = get_else-get "id" (str "") f id in
    let file_is = get_else-get "file" (str "") f file in
    marker_of-side (marker_payload f) (text_or (get_else "side" (str "RIGHT") f) "RIGHT")
      (side_text-marker_payload f side) (ap has_text id_is ∙ id) (ap has_text file_is ∙ file)
    ∙ ap
        (λ (v : Value). some (record (own_marker f) {
          id = text_or v "";
          file_path = text_or (get_else "file" (str "") f) "";
        }))
        id_is
    ∙ ap (λ (v : Value). some (record (own_marker f) { file_path = text_or v "" })) file_is

parse-found :
    (json_loads : String → Option Value) (body group : String) (payload : Fields)
    → search_marker body ≡ some group
    → json_loads group ≡ some (dict payload)
    → parse_review_comment_marker json_loads body ≡ marker_of payload
unfolding parse_review_comment_marker as_dict
parse-found json_loads body group payload s l =
    ap (λ (o : Option String). o >>= λ g. json_loads g >>= λ v. as_dict v >>= λ p. marker_of p) s
    ∙ ap (λ (o : Option Value). o >>= λ v. as_dict v >>= λ p. marker_of p) l

-- A finding with an id, a file and a side, whose marker as JSON is read back as it was and has no
-- closing brace but its last: whatever the texts of its comment say, the marker that is parsed from
-- the comment is the finding's own.
pub parse-render_inline_comment_body :
    (json_loads : String → Option Value) (json_dumps : Value → String) (f : Fields) (mid : String)
    → json_dumps (dict (marker_payload f)) ≡ "{" ⧺ (mid ⧺ "}")
    → no_brace mid ≡ true
    → json_loads ("{" ⧺ (mid ⧺ "}")) ≡ some (dict (marker_payload f))
    → has_text (get "id" f) ≡ true
    → has_text (get "file" f) ≡ true
    → in_texts (get_else "side" (str "RIGHT") f) ("LEFT" ∷ "RIGHT" ∷ []) ≡ true
    → parse_review_comment_marker json_loads (render_inline_comment_body json_dumps f)
      ≡ some (own_marker f)
unfolding render_inline_comment_body
parse-render_inline_comment_body json_loads json_dumps f mid dumps flat loads id file side =
    let rest = "\n" ⧺ join "\n" ("" ∷ comment_lines f) in
    let end = suggestion_block (text_default "suggestion" "" f) in
    let found : search_marker (render_inline_comment_body json_dumps f) ≡ some ("{" ⧺ (mid ⧺ "}")) =
      ap (λ (j : String). search_marker ((comment_marker j ⧺ rest) ⧺ end)) dumps
      ∙ search_marker-comment_marker mid rest end flat in
    parse-found json_loads (render_inline_comment_body json_dumps f) ("{" ⧺ (mid ⧺ "}"))
      (marker_payload f) found loads
    ∙ marker_of-marker_payload f id file side
