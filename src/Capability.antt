-- ===== src/Capability.antt =====
-- packages/schema/src/capability.ts: which media a model takes. The matrix of one provider is a
-- parameter of the lookup, the own keys of its object in their order; the file inputs of an agent are
-- given with the media that each requires.
pub mod Longest
pub mod Validation
use Prim.Native.String.{count}
use text.Mathlib.Text.{starts_with}
use skrun.Base.{
  ℕ, String, Bool, true, false, not, ◌&&◌, Option, none, some, List, [], ◌∷◌, ◌++◌, ltb,
  if◌then◌else◌, template, string_eq, is_inherited,
}
use skrun.JsMap
use skrun.JsMap.{JsMap}

pub record ModelCapabilities : Type 0 where
  pub image : Bool
  pub document : Bool
  pub audio : Bool
  pub caching : Bool

pub data Media : Type 0 where
  image document audio : Media

abbrev pub media_name : Media → String
media_name image = "image"
media_name document = "document"
media_name audio = "audio"

abbrev pub takes : ModelCapabilities → Media → Bool
takes c image = c.image
takes c document = c.document
takes c audio = c.audio

-- A dated or tagged name of the model of the key.
abbrev pub is_variant : String → String → Bool
is_variant name key = starts_with name (template (key ∷ "-" ∷ []))

-- `!bestMatch || key.length > bestMatch.key.length`
abbrev pub is_better : String → Option (String × ModelCapabilities) → Bool
is_better key none = true
is_better key (some best) = ltb (count best.0) (count key)

unfoldable pub best_match :
    String
    → JsMap String ModelCapabilities
    → Option (String × ModelCapabilities)
    → Option (String × ModelCapabilities)
best_match name [] best = best
best_match name ((key, caps) ∷ m) best =
    best_match name m (if is_variant name key && is_better key best then some (key, caps) else best)

abbrev pub caps_of : Option (String × ModelCapabilities) → Option ModelCapabilities
caps_of none = none
caps_of (some best) = some best.1

-- A member of `Object.prototype` where capabilities are expected: the four fields are undefined, which
-- every test of one takes as false.
abbrev pub inherited_member : ModelCapabilities
inherited_member = record { image = false; document = false; audio = false; caching = false }

-- `modelName in providerMatrix` and `providerMatrix[modelName]`: an own key first, then the prototype's.
unfoldable pub look_up : JsMap String ModelCapabilities → String → Option ModelCapabilities
look_up matrix name = elim (JsMap.get matrix name) [
  | some caps ↦ some caps
  | none ↦ if is_inherited name then some inherited_member else none
]

unfoldable pub get_model_capabilities :
    JsMap String ModelCapabilities → String → Option ModelCapabilities
unfolding look_up
get_model_capabilities matrix name = elim (look_up matrix name) [
  | some caps ↦ some caps
  | none ↦ caps_of (best_match name matrix none)
]

pub record FileInputField : Type 0 where
  pub name : String
  pub media : Media

-- A model of the configuration, with its provider's matrix.
pub record Model : Type 0 where
  pub provider : String
  pub name : String
  pub matrix : JsMap String ModelCapabilities

abbrev pub complaint : String → Model → FileInputField → String
complaint role model input = template (
    "Input '"
    ∷ input.name
    ∷ "' requires '"
    ∷ media_name input.media
    ∷ "' but "
    ∷ role
    ∷ " model '"
    ∷ model.provider
    ∷ "/"
    ∷ model.name
    ∷ "' does not support it"
    ∷ [])

unfoldable pub errors_for : String → Model → ModelCapabilities → List FileInputField → List String
errors_for role model caps [] = []
errors_for role model caps (input ∷ inputs) =
    let rest = errors_for role model caps inputs in
    if not (takes caps input.media) then complaint role model input ∷ rest else rest

-- A model that is not in the matrix is not checked.
unfoldable pub model_errors : String → Model → List FileInputField → List String
model_errors role model inputs = elim (get_model_capabilities model.matrix model.name) [
  | none ↦ []
  | some caps ↦ errors_for role model caps inputs
]

abbrev pub fallback_errors : Option Model → List FileInputField → List String
fallback_errors none inputs = []
fallback_errors (some model) inputs = model_errors "fallback" model inputs

-- `none` is `{ ok: true }`, and `some errors` its refusal.
abbrev pub outcome : List String → Option (List String)
outcome [] = none
outcome (e ∷ errors) = some (e ∷ errors)

unfoldable pub validate_agent_capabilities :
    Model → Option Model → List FileInputField → Option (List String)
validate_agent_capabilities primary fallback [] = none
validate_agent_capabilities primary fallback (input ∷ inputs) =
    outcome
      (model_errors "primary" primary (input ∷ inputs) ++ fallback_errors fallback (input ∷ inputs))
