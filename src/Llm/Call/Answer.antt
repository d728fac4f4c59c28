-- ===== src/Llm/Call/Answer.antt =====
-- What an answer of the router promises.
use skrun.Base.{
  ◌∙◌, ℕ, ◌≡◌, ◌↔◌, ◌⊎◌, inl, inr, refl, sym, ap, ℕ_discrete, subst, String, Bool, true, false,
  Option, none, some, arith, Option-cases,
}
use native.Mathlib.Nat.{zero-mul}
use skrun.Llm.Cost.{ModelPricing, pricing_of, with_rates, cost_at, estimate_cost}
use skrun.Llm.Keys.{
  Provider, Resolved, provider, base_url_refused, server_key_refused, no_key, resolve_provider,
  endpoint, truthy, resolve_provider_lem,
}
use skrun.Llm.ToolLoop.{LoopResult, call_with_tool_loop, no_usage, check_cost}
use skrun.Llm.ToolLoop.Budget.{IsWithin, call_with_tool_loop_lem}
use skrun.Llm.Call.{
  Fallback, ModelConfig, Ending, completes, rejects, Request, check_capabilities, loop_options,
  Attempt, answered, failed, await_loop, attempt_with, attempt, RouterResponse, build_response, ok,
  settle, call_fallback, race, call,
}

-- The response is of the tool loop of a model that takes all the parts, run by a provider whose key was
-- resolved for the model's provider and which goes to the endpoint given.
abbrev pub Served : Request → String → String → Option String → RouterResponse → Type 0
Served q name model base_url resp =
    (p : Provider) × (resolve_provider q.server name q.caller_keys q.creator_keys base_url
      ≡ provider p)
    × (endpoint p ≡ truthy base_url)
    × (check_capabilities (q.capabilities name model) q.parts ≡ none)
    × (resp ≡ build_response name model (call_with_tool_loop (loop_options q p model)))

await_loop-answered :
    (q : Request) (p : Provider) (model : String) (e : Ending) {t : Bool} {r : LoopResult}
    → await_loop q p model e ≡ answered t r
    → r ≡ call_with_tool_loop (loop_options q p model)
unfolding await_loop
await_loop-answered q p model (completes t) h = cc
await_loop-answered q p model (rejects t) h = cc

attempt_with-answered :
    (q : Request) (name model : String) (res : Resolved) {t : Bool} {r : LoopResult}
    → attempt_with q name model res ≡ answered t r
    → (p : Provider) × (res ≡ provider p)
      × (check_capabilities (q.capabilities name model) q.parts ≡ none)
      × (r ≡ call_with_tool_loop (loop_options q p model))
unfolding attempt_with
attempt_with-answered q name model (provider p) h =
    elim (Option-cases (check_capabilities (q.capabilities name model) q.parts)) [
      | inl e ↦
          (p, refl, e, await_loop-answered q p model (q.ending p model) (rw (attempt_with, e) at h))
      | inr (m, e) ↦ cc (rw (attempt_with, e) at h)
    ]
attempt_with-answered q name model base_url_refused h = cc
attempt_with-answered q name model server_key_refused h = cc
attempt_with-answered q name model no_key h = cc

attempt-Served :
    (q : Request) (name model : String) (base_url : Option String) {t : Bool} {r : LoopResult}
    → attempt q name model base_url ≡ answered t r
    → Served q name model base_url (build_response name model r)
unfolding attempt
attempt-Served q name model base_url h =
    let (p, resolved, accepted, looped) =
      attempt_with-answered q name model
        (resolve_provider q.server name q.caller_keys q.creator_keys base_url) h in
    (
      p,
      resolved,
      (resolve_provider_lem q.server name q.caller_keys q.creator_keys base_url p resolved).0,
      accepted,
      ap (build_response name model) looped,
    )

settle-ok :
    (name model : String) (a : Attempt) {resp : RouterResponse}
    → settle name model a ≡ ok resp
    → (t : Bool) × (r : LoopResult) × (a ≡ answered t r) × (build_response name model r ≡ resp)
settle-ok name model (answered t r) h = (t, r, refl, cc)
settle-ok name model (failed t e) h = cc

call_fallback-Served :
    (q : Request) (f : Fallback) {resp : RouterResponse}
    → call_fallback q f ≡ ok resp
    → Served q f.provider_name f.model none resp
unfolding call_fallback
call_fallback-Served q f h =
    let (t, r, answers, built) =
      settle-ok f.provider_name f.model (attempt q f.provider_name f.model none) h in
    subst (Served q f.provider_name f.model none) built
      (attempt-Served q f.provider_name f.model none answers)

race-ok :
    (q : Request) (c : ModelConfig) (f : Fallback) (a : Attempt) {resp : RouterResponse}
    → race q c f a ≡ ok resp
    → ((t : Bool) × (r : LoopResult) × (a ≡ answered t r)
        × (build_response c.provider_name c.model r ≡ resp))
      ⊎ (call_fallback q f ≡ ok resp)
unfolding race
race-ok q c f (answered true r) h = inl (true, r, refl, cc)
race-ok q c f (answered false r) h = inr h
race-ok q c f (failed t e) h = inr h

-- The primary served, or the fallback that is configured did.
abbrev pub ServedByOne : Request → ModelConfig → RouterResponse → Type 0
ServedByOne q c resp =
    Served q c.provider_name c.model c.base_url resp
    ⊎ (f : Fallback) × (c.fallback ≡ some f) × Served q f.provider_name f.model none resp

call-ServedByOne :
    (q : Request) (c : ModelConfig) {resp : RouterResponse}
    → call q c ≡ ok resp
    → ServedByOne q c resp
unfolding call
call-ServedByOne q c h =
    let primary = attempt q c.provider_name c.model c.base_url in
    elim (Option-cases c.fallback) [
      | inl e ↦
          let (t, r, answers, built) =
            settle-ok c.provider_name c.model primary (rw (call, e) at h) in
          inl (
            subst (Served q c.provider_name c.model c.base_url) built
              (attempt-Served q c.provider_name c.model c.base_url answers))
      | inr (f, e) ↦ elim (race-ok q c f primary (rw (call, e) at h)) [
        | inl (t, r, answers, built) ↦ inl (
            subst (Served q c.provider_name c.model c.base_url) built
              (attempt-Served q c.provider_name c.model c.base_url answers))
        | inr fell ↦ inr (f, e, call_fallback-Served q f fell)
      ]
    ]

-- Spending nothing costs nothing, or `NaN`, and passes no ceiling.
nothing_passes :
    (rates : Option ModelPricing) (max_cost : Option ℕ)
    → check_cost (with_rates rates (cost_at 0 0 none none)) max_cost ≡ false
nothing_passes none none = refl
nothing_passes none (some n) = refl
nothing_passes (some p) none = refl
nothing_passes (some p) (some n) = simp zero-mul (ground arith)

within : (q : Request) (p : Provider) (model : String) → IsWithin (loop_options q p model) no_usage
unfolding estimate_cost ℕ_discrete
within q p model = nothing_passes (pricing_of model) q.max_cost

Served-flag :
    (q : Request) (name model : String) (base_url : Option String) (resp : RouterResponse)
    → Served q name model base_url resp
    → (resp.cost_exceeded ≡ true) ↔ (check_cost resp.estimated_cost q.max_cost ≡ true)
Served-flag q name model base_url resp (p, resolved, there, accepted, built) =
    let (few, counted, flag, paid) =
      call_with_tool_loop_lem (loop_options q p model) (within q p model) in
    subst
      (λ (r : RouterResponse).
        (r.cost_exceeded ≡ true) ↔ (check_cost r.estimated_cost q.max_cost ≡ true))
      (sym built) flag

-- An answer of the router is the tool loop's of the primary model, at the endpoint that the agent declares,
-- or of the fallback that is configured, which never goes to the declared endpoint; the model takes
-- every part of the content as far as its capabilities are known, and the key was resolved for the
-- provider. The flag on the answer says exactly whether the cost that it reports passes the ceiling.
pub call_lem :
    (q : Request) (c : ModelConfig) {resp : RouterResponse}
    → call q c ≡ ok resp
    → ServedByOne q c resp
      × ((resp.cost_exceeded ≡ true) ↔ (check_cost resp.estimated_cost q.max_cost ≡ true))
call_lem q c {resp} h =
    let served = call-ServedByOne q c h in
    (
      served,
      elim served [
        | inl s ↦ Served-flag q c.provider_name c.model c.base_url resp s
        | inr (f, e, s) ↦ Served-flag q f.provider_name f.model none resp s
      ],
    )

race_answers :
    (q : Request) (c : ModelConfig) (f : Fallback) (r : LoopResult)
    → call_fallback q f ≡ ok (build_response f.provider_name f.model r)
    → (a : Attempt) → (resp : RouterResponse) × (race q c f a ≡ ok resp)
unfolding race
race_answers q c f r there (answered true r') = (build_response c.provider_name c.model r', refl)
race_answers q c f r there (answered false r') = (build_response f.provider_name f.model r, there)
race_answers q c f r there (failed t e) = (build_response f.provider_name f.model r, there)

settle-answered :
    (name model : String) (a : Attempt) (t : Bool) (r : LoopResult)
    → a ≡ answered t r
    → settle name model a ≡ ok (build_response name model r)
settle-answered name model a t r e = rw e refl

call-race :
    (q : Request) (c : ModelConfig) (f : Fallback)
    → c.fallback ≡ some f
    → call q c ≡ race q c f (attempt q c.provider_name c.model c.base_url)
unfolding call
call-race q c f e = rw (call, e) refl

-- As long as a fallback is configured whose loop completes, the router answers, whatever becomes of the
-- primary: it may be refused, throw, or hang past the timeout.
pub fallback_answers :
    (q : Request) (c : ModelConfig) (f : Fallback) (t : Bool) (r : LoopResult)
    → c.fallback ≡ some f
    → attempt q f.provider_name f.model none ≡ answered t r
    → (resp : RouterResponse) × (call q c ≡ ok resp)
unfolding call_fallback
fallback_answers q c f t r e answers =
    let (resp, raced) =
      race_answers q c f r (settle-answered f.provider_name f.model _ t r answers)
        (attempt q c.provider_name c.model c.base_url) in
    (resp, call-race q c f e ∙ raced)
