-- ===== src/Queue/Blocks.antt =====
-- The content blocks of a queued message: `_build_blocks_from_payload` and the loop of the
-- middleware. `none` is an exception, which the middleware catches.
use Prim.Native.String.{[] as empty_text, ◌∷◌ as char_then}
use loupfeed_agents.Common.{
  ℕ, String, Bool, true, false, ◌||◌, not, Option, none, some, List, [], ◌∷◌, ◌++◌, any, length,
  if◌then◌else◌, str_eq, ◌⧺◌, show_ℕ, ◌>>=◌,
}
use loupfeed_agents.Json.{
  Value, null, bool, int, str, list, dict, Fields, field, end, get, has, truthy, as_str, as_dict,
  as_list, eq_text, list_of,
}
use loupfeed_agents.Findings.Client.{Fetch, found, not_found, failed, metadata_of}
use loupfeed_agents.Findings.Thread.{text_of}

-- What a check asks of other parts: the thread as the client reads it, and `fetch_image_block`, which
-- downloads an image.
pub record Env : Type 0 where
  pub thread : Fetch
  pub fetch_image_block : Value → Option Value

-- `_resolve_thread_model_id`
unfoldable pub resolve_thread_model_id : Fetch → Option String
unfolding text_of get metadata_of
resolve_thread_model_id (found thread) = text_of (get "model" (metadata_of thread))
resolve_thread_model_id not_found = none
resolve_thread_model_id failed = none

-- `SUPPORTED_MODELS`: the id of each, and `supports_images`
abbrev supported_models : List (String × Bool)
supported_models =
    ("openai:deepseek/deepseek-v4-pro", false)
    ∷ ("anthropic:claude-opus-4-8", true)
    ∷ ("openai:gpt-5.5", true)
    ∷ ("google_genai:gemini-3.5-flash", true)
    ∷ ("fireworks:accounts/fireworks/models/kimi-k2p7-code", false)
    ∷ ("fireworks:accounts/fireworks/models/deepseek-v4-pro", false)
    ∷ ("fireworks:accounts/fireworks/models/glm-5p2", false)
    ∷ []

supports_in : List (String × Bool) → String → Bool
supports_in [] id = false
supports_in ((m, supports) ∷ ms) id = if str_eq m id then supports else supports_in ms id

-- `model_supports_images`
unfoldable pub model_supports_images : String → Bool
unfolding supports_in
model_supports_images id = supports_in supported_models id

unfoldable pub vision_not_supported_warning : String → ℕ → String
unfolding show_ℕ
vision_not_supported_warning model_id count =
    "\n\n**Note:** "
    ⧺ (show_ℕ count
        ⧺ (" image(s) were attached but the current model ("
            ⧺ (model_id
                ⧺ ") does not support image input. The images were not included. Please switch to a vision-enabled model to process images.")))

abbrev pub text_block : Value → Value
text_block text = dict (field "type" (str "text") (field "text" text end))

chars : String → List Value
chars empty_text = []
chars (char_then c s) = str (char_then c empty_text) ∷ chars s

keys : Fields → List Value
keys end = []
keys (field k v d) = str k ∷ keys d

-- `for x in v`, for a value that is not falsy: a number cannot be iterated
unfoldable pub iterate : Value → Option (List Value)
unfolding chars keys list_of
iterate (list l) = some (list_of l)
iterate (str s) = some (chars s)
iterate (dict d) = some (keys d)
iterate _ = none

-- `[image for image in images if isinstance(image, dict)]`
dicts : List Value → List Value
dicts [] = []
dicts (dict d ∷ vs) = dict d ∷ dicts vs
dicts (v ∷ vs) = dicts vs

unfoldable pub image_blocks : Fields → List Value
unfolding dicts get as_list
image_blocks payload = elim (as_list (get "images" payload)) [ none ↦ [] | some l ↦ dicts l ]

unfoldable pub own_blocks : Fields → List Value
unfolding image_blocks get truthy
own_blocks payload =
    let images = image_blocks payload in
    if truthy (get "text" payload) then text_block (get "text" payload) ∷ images else images

-- `model_id and not model_supports_images(model_id)`
lacks_vision : Option String → Option String
unfolding model_supports_images
lacks_vision none = none
lacks_vision (some id) = if model_supports_images id then none else some id

fetched : (Value → Option Value) → List Value → List Value
fetched fetch [] = []
fetched fetch (u ∷ us) =
    let rest = fetched fetch us in elim (fetch u) [ none ↦ rest | some b ↦ b ∷ rest ]

-- the blocks without the images, for a model that cannot read them
warned : String → ℕ → Fields → Option (List Value)
unfolding get truthy as_str image_blocks vision_not_supported_warning
warned model_id count payload =
    if truthy (get "text" payload)
    then (elim (as_str (get "text" payload)) [
      | none ↦ none
      | some t ↦ some (
          text_block (str (t ⧺ vision_not_supported_warning model_id count)) ∷ image_blocks payload)
    ])
    else some (image_blocks payload)

-- `_build_blocks_from_payload`
unfoldable pub build_blocks_from_payload : Env → Option String → Fields → Option (List Value)
unfolding own_blocks get truthy iterate lacks_vision warned fetched
build_blocks_from_payload env model_id payload =
    if not (truthy (get "image_urls" payload))
    then some (own_blocks payload)
    else (elim (iterate (get "image_urls" payload)) [
      | none ↦ none
      | some urls ↦ elim (lacks_vision model_id) [
        | some id ↦ warned id (length urls) payload
        | none ↦ some (own_blocks payload ++ fetched env.fetch_image_block urls)
      ]
    ])

abbrev pub handoff_instruction : String
handoff_instruction =
    "[loupfeed agents Web handoff] This follow-up was sent from Web. The conversation has moved to Web, so answer in the dashboard stream with a normal assistant message. Do not call slack_thread_reply unless a later Slack message explicitly moves the conversation back to Slack."

-- the block in front of a message from the dashboard
handoff : Fields → List Value
unfolding eq_text get
handoff payload =
    if eq_text (get "source" payload) "dashboard"
    then text_block (str handoff_instruction) ∷ []
    else []

has_payload : Fields → Bool
unfolding has
has_payload payload = has "text" payload || has "image_urls" payload || has "images" payload

-- the blocks of one message's content
unfoldable pub content_blocks : Env → Option String → Value → Option (List Value)
unfolding handoff has_payload build_blocks_from_payload list_of
content_blocks env model_id (dict payload) =
    if has_payload payload
    then (do
      blocks ← build_blocks_from_payload env model_id payload
      some (handoff payload ++ blocks))
    else some (handoff payload)
content_blocks env model_id (list l) = some (list_of l)
content_blocks env model_id (str empty_text) = some []
content_blocks env model_id (str (char_then c s)) = some (text_block (str (char_then c s)) ∷ [])
content_blocks env model_id null = some []
content_blocks env model_id (bool b) = some []
content_blocks env model_id (int z) = some []

-- the loop over the messages; a message that is no dict has no `get`
unfoldable pub messages_blocks : Env → Option String → List Value → Option (List Value)
unfolding as_dict get content_blocks
messages_blocks env model_id [] = some []
messages_blocks env model_id (m ∷ ms) = do
  d ← as_dict m
  blocks ← content_blocks env model_id (get "content" d)
  rest ← messages_blocks env model_id ms
  some (blocks ++ rest)

-- the test of `has_images` on one message
shows_images : Value → Bool
unfolding as_dict get truthy
shows_images m = elim (as_dict m) [
  | none ↦ false
  | some d ↦ elim (as_dict (get "content" d)) [
    | none ↦ false
    | some p ↦ truthy (get "image_urls" p) || truthy (get "images" p)
  ]
]

-- The model is resolved only where a message has images. A message that is no dict raises here or in
-- the loop, with one outcome.
unfoldable pub resolved_model_id : Env → List Value → Option String
unfolding shows_images resolve_thread_model_id
resolved_model_id env ms = if any shows_images ms then resolve_thread_model_id env.thread else none
