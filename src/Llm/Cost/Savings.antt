-- ===== src/Llm/Cost/Savings.antt =====
-- What prompt caching saves, and that it never costs more.
use skrun.Base.{◌≤◌, ◌≡◌, String, none, some, string_eq, is_inherited, ◌⊎◌, true, false}
use skrun.JsMap
use skrun.Llm.Cost.{ModelPricing, pricing, pricing_of, cached_read_rate}

abbrev IsDiscounted : ModelPricing → Type 0
IsDiscounted p = cached_read_rate p ≤ p.input

-- The rates of a listed model, else those of an inherited member, else the default.
data Looked (model : String) : Type 0 where
  rated :
      (p : ModelPricing)
      → pricing_of model ≡ some p
      → IsDiscounted p
      → ((q : ModelPricing) × (JsMap.get pricing model ≡ some q)) ⊎ (is_inherited model ≡ false)
      → Looked model
  unrated :
      JsMap.get pricing model ≡ none
      → is_inherited model ≡ true
      → pricing_of model ≡ none
      → Looked model
