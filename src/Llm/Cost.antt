-- ===== src/Llm/Cost.antt =====
-- packages/runtime/src/llm/cost.ts: the prices of the models and the estimate of a call's cost. A price
-- is in ten-thousandths of a dollar for a million tokens, which makes every price of the table a whole
-- number; a cost is in units of 10 ^ -10 dollars, and a saving in millionths of a dollar.
pub mod Savings
use skrun.Base.{
  ℕ, ◌+◌, ◌-◌, ◌*◌, ◌/◌, String, Bool, Option, none, some, List, [], ◌∷◌, get_or, string_eq,
  is_inherited, if◌then◌else◌,
}
use skrun.JsMap
use skrun.JsMap.{JsMap}

pub record ModelPricing : Type 0 where
  pub input : ℕ
  pub output : ℕ
  pub input_cached_read : Option ℕ
  pub input_cached_write5m : Option ℕ
  pub input_cached_write1h : Option ℕ

-- An entry: the prices of input, output, cached reads, and cached writes for 5 minutes and an hour.
abbrev price : ℕ → ℕ → Option ℕ → Option ℕ → Option ℕ → ModelPricing
price input output read write5m write1h = record {
  input = input;
  output = output;
  input_cached_read = read;
  input_cached_write5m = write5m;
  input_cached_write1h = write1h;
}

unfoldable pub pricing : JsMap String ModelPricing
pricing =
    ("claude-opus-4-7", price 50000 250000 (some 5000) (some 62500) (some 100000))
    ∷ ("claude-opus-4-6", price 50000 250000 (some 5000) (some 62500) (some 100000))
    ∷ ("claude-sonnet-4-6", price 30000 150000 (some 3000) (some 37500) (some 60000))
    ∷ ("claude-haiku-4-5", price 10000 50000 (some 1000) (some 12500) (some 20000))
    ∷ ("claude-opus-4-20250514", price 150000 750000 (some 15000) (some 187500) (some 300000))
    ∷ ("claude-sonnet-4-20250514", price 30000 150000 (some 3000) (some 37500) (some 60000))
    ∷ ("claude-haiku-4-5-20251001", price 10000 50000 (some 1000) (some 12500) (some 20000))
    ∷ ("gpt-5.5-pro", price 300000 1800000 (some 30000) none none)
    ∷ ("gpt-5.5", price 50000 300000 (some 5000) none none)
    ∷ ("gpt-5.4-pro", price 300000 600000 (some 30000) none none)
    ∷ ("gpt-5.4-mini", price 7500 45000 (some 750) none none)
    ∷ ("gpt-5.4-nano", price 2000 8000 (some 200) none none)
    ∷ ("gpt-5.4", price 50000 150000 (some 5000) none none)
    ∷ ("gpt-audio", price 25000 100000 (some 12500) none none)
    ∷ ("gpt-audio-1.5", price 25000 100000 (some 12500) none none)
    ∷ ("gpt-4o-audio-preview", price 25000 100000 (some 12500) none none)
    ∷ ("gpt-4o", price 25000 100000 (some 12500) none none)
    ∷ ("gpt-4o-mini", price 1500 6000 (some 750) none none)
    ∷ ("o3-mini", price 11000 44000 (some 5500) none none)
    ∷ ("gemini-3.1-pro-preview", price 20000 120000 (some 2000) none none)
    ∷ ("gemini-3.1-flash-preview", price 5000 30000 (some 500) none none)
    ∷ ("gemini-3.1-flash-lite-preview", price 2500 15000 (some 250) none none)
    ∷ ("gemini-3-flash-preview", price 5000 30000 (some 500) none none)
    ∷ ("gemini-2.5-pro", price 12500 100000 (some 1250) none none)
    ∷ ("gemini-2.5-flash", price 1500 6000 (some 150) none none)
    ∷ ("mistral-large-3", price 20000 60000 none none none)
    ∷ ("mistral-medium-3.5", price 4000 20000 none none none)
    ∷ ("mistral-medium-3", price 4000 20000 none none none)
    ∷ ("mistral-small-4", price 1500 6000 none none none)
    ∷ ("mistral-small-3.1", price 2000 6000 none none none)
    ∷ ("ministral-8b", price 1000 1000 none none none)
    ∷ ("magistral-medium-1.2", price 20000 50000 none none none)
    ∷ ("mistral-large-latest", price 20000 60000 none none none)
    ∷ ("mistral-small-latest", price 1000 3000 none none none)
    ∷ ("openai/gpt-oss-120b", price 1500 6000 (some 750) none none)
    ∷ ("openai/gpt-oss-20b", price 1000 4000 (some 500) none none)
    ∷ ("openai/gpt-oss-safeguard-20b", price 1000 4000 (some 500) none none)
    ∷ ("gpt-oss-120b", price 1500 6000 (some 750) none none)
    ∷ ("gpt-oss-20b", price 1000 4000 (some 500) none none)
    ∷ ("llama-3.3-70b-versatile", price 5900 7900 none none none)
    ∷ ("llama-3.1-8b-instant", price 500 800 none none none)
    ∷ ("grok-4.3", price 12500 25000 (some 3125) none none)
    ∷ ("grok-4.1-fast", price 2000 5000 (some 500) none none)
    ∷ ("grok-4.20-multi-agent", price 20000 60000 (some 5000) none none)
    ∷ []

abbrev pub default_pricing : ModelPricing
default_pricing = price 30000 150000 none none none

-- What a model's name has in an object without it as a key: a member of `Object.prototype`, in which no
-- rate is defined (`none`), or the default.
abbrev pub unlisted : Bool → Option ModelPricing
unlisted inherited = if inherited then none else some default_pricing

-- `PRICING[model] ?? DEFAULT_PRICING`: an own key first, then the prototype's, then the default.
unfoldable pub pricing_of : String → Option ModelPricing
unfolding pricing
pricing_of model = elim (JsMap.get pricing model) [
  | some p ↦ some p
  | none ↦ unlisted (is_inherited model)
]

abbrev pub cached_read_rate : ModelPricing → ℕ
cached_read_rate p = get_or p.input_cached_read p.input

abbrev pub cached_write_rate : ModelPricing → ℕ
cached_write_rate p = get_or p.input_cached_write5m p.input

-- A number of JavaScript, of which only `NaN` is no amount.
pub data Amount : Type 0 where
  nan : Amount
  usd : ℕ → Amount

-- Arithmetic with an undefined rate gives `NaN`, which `Math.max` and `Math.round` keep.
abbrev pub with_rates : Option ModelPricing → (ModelPricing → ℕ) → Amount
with_rates none f = nan
with_rates (some p) f = usd (f p)

abbrev pub cost_at : ℕ → ℕ → Option ℕ → Option ℕ → ModelPricing → ℕ
cost_at prompt_tokens completion_tokens cache_read_tokens cache_write_tokens p =
    prompt_tokens * p.input
    + get_or cache_read_tokens 0 * cached_read_rate p
    + get_or cache_write_tokens 0 * cached_write_rate p
    + completion_tokens * p.output

unfoldable pub estimate_cost : String → ℕ → ℕ → Option ℕ → Option ℕ → Amount
estimate_cost model prompt_tokens completion_tokens cache_read_tokens cache_write_tokens =
    with_rates (pricing_of model)
      (cost_at prompt_tokens completion_tokens cache_read_tokens cache_write_tokens)

-- `Math.max(0, ...)`, rounded to the millionth, halves up.
abbrev pub savings_at : ℕ → ModelPricing → ℕ
savings_at cache_read_tokens p = (cache_read_tokens * (p.input - cached_read_rate p) + 5000) / 10000

unfoldable pub estimate_cache_savings : String → ℕ → Amount
estimate_cache_savings model cache_read_tokens =
    with_rates (pricing_of model) (savings_at cache_read_tokens)
