-- ===== src/Examples/Capability.antt =====
-- The capability theorems at a small matrix.
use Prim.Native.String.{count}
use skrun.Base.{
  ◌≡◌, ◌⊎◌, ◌≤◌, refl, String, true, false, none, some, [], ◌∷◌, string_discrete, string_eq, All,
  is_inherited,
}
use skrun.JsMap
use skrun.JsMap.{JsMap, Distinct}
use skrun.Capability.{
  ModelCapabilities, Media, takes, inherited_member, look_up, get_model_capabilities, is_variant,
}
use skrun.Capability.Longest.{get_model_capabilities_lem}

abbrev vision : ModelCapabilities
vision = record { image = true; document = false; audio = false; caching = true }

abbrev reading : ModelCapabilities
reading = record { image = true; document = true; audio = false; caching = true }

abbrev matrix : JsMap String ModelCapabilities
matrix = ("gpt-5", vision) ∷ ("gpt-5-mini", reading) ∷ []

matrix-Distinct : Distinct matrix
unfolding JsMap.get string_discrete
matrix-Distinct = (refl, (refl, tt))

get_model_capabilities_example :
    ((caps : ModelCapabilities) × (JsMap.get matrix "gpt-5-mini-2026" ≡ some caps)
      × (get_model_capabilities matrix "gpt-5-mini-2026" ≡ some caps))
    ⊎ ((JsMap.get matrix "gpt-5-mini-2026" ≡ none)
        × (is_inherited "gpt-5-mini-2026" ≡ true)
        × (caps : ModelCapabilities) × (get_model_capabilities matrix "gpt-5-mini-2026" ≡ some caps)
        × ((media : Media) → takes caps media ≡ false))
    ⊎ ((key : String) × (caps : ModelCapabilities) × (is_inherited "gpt-5-mini-2026" ≡ false)
        × (is_variant "gpt-5-mini-2026" key ≡ true)
        × (JsMap.get matrix key ≡ some caps)
        × (get_model_capabilities matrix "gpt-5-mini-2026" ≡ some caps)
        × All
            (λ (e : String × ModelCapabilities).
              (is_variant "gpt-5-mini-2026" e.0 ≡ false) ⊎ (count e.0 ≤ count key))
            matrix)
    ⊎ ((is_inherited "gpt-5-mini-2026" ≡ false)
        × (get_model_capabilities matrix "gpt-5-mini-2026" ≡ none)
        × All (λ (e : String × ModelCapabilities). is_variant "gpt-5-mini-2026" e.0 ≡ false) matrix)
get_model_capabilities_example = get_model_capabilities_lem matrix "gpt-5-mini-2026" matrix-Distinct

-- A name of the prototype is looked up before the longest key is searched for.
constructor_member : get_model_capabilities matrix "constructor" ≡ some inherited_member
unfolding get_model_capabilities look_up is_inherited JsMap.get string_discrete
constructor_member = refl
