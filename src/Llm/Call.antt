-- ===== src/Llm/Call.antt =====
-- router.ts, `call`: the primary model, the fallback, and the response. What the world does is given:
-- the answers of a provider, and whether its loop completes, throws, and before the failover timeout.
pub mod Answer
use skrun.Base.{
  ℕ, ◌+◌, String, Bool, true, false, Option, none, some, List, [], ◌∷◌, ◌==◌, nat_eq, if◌then◌else◌,
  ltb,
}
use skrun.JsMap.{JsMap}
use skrun.Capability.{ModelCapabilities, Media, takes}
use skrun.Llm.Cost.{Amount, estimate_cost}
use skrun.Llm.Keys.{
  Server, Provider, Resolved, provider, base_url_refused, server_key_refused, no_key,
  resolve_provider,
}
use skrun.Llm.ToolLoop.{
  ToolCallRequest, ToolCallResult, Usage, Response, ToolLoopOptions, LoopResult,
  call_with_tool_loop,
}

pub record Fallback : Type 0 where
  pub provider_name : String
  pub model : String

pub record ModelConfig : Type 0 where
  pub provider_name : String
  pub model : String
  pub base_url : Option String
  pub fallback : Option Fallback

-- A part of the user's content: text, or a file of some media.
pub data SkrunPart : Type 0 where
  text : String → SkrunPart
  file : Media → SkrunPart

-- How the awaited loop of a provider ends, and whether it does before the failover timeout.
pub data Ending : Type 0 where
  completes : (in_time : Bool) → Ending
  rejects : (in_time : Bool) → Ending

pub record Request : Type 0 where
  pub server : Server
  pub caller_keys : JsMap String String
  pub creator_keys : JsMap String String
  pub capabilities : String → String → Option ModelCapabilities
  pub parts : List SkrunPart
  pub ask : Provider → String → ℕ → List ToolCallRequest → List ToolCallResult → Response
  pub ending : Provider → String → Ending
  pub on_tool_call : Option (ToolCallRequest → ToolCallResult)
  pub max_cost : Option ℕ

pub data RouterError : Type 0 where
  unresolved : Resolved → RouterError
  capability_error : (provider_name model : String) → Media → RouterError
  provider_error : RouterError

-- `checkCapabilities`: the first part that the model does not take.
unfoldable pub first_refused : ModelCapabilities → List SkrunPart → Option Media
first_refused caps [] = none
first_refused caps (text t ∷ parts) = first_refused caps parts
first_refused caps (file m ∷ parts) = if takes caps m then first_refused caps parts else some m

-- A model with no known capabilities takes everything.
abbrev pub check_capabilities : Option ModelCapabilities → List SkrunPart → Option Media
check_capabilities none parts = none
check_capabilities (some caps) parts = first_refused caps parts

-- `tokens || undefined`, and a field that is there when it is positive.
abbrev pub positive : ℕ → Option ℕ
positive n = if n == 0 then none else some n

-- The estimate that the loop and the response share.
abbrev pub cost_of : String → Usage → Amount
cost_of model u =
    estimate_cost model u.prompt_tokens u.completion_tokens (positive u.cache_read_tokens)
      (positive u.cache_write_tokens)

abbrev pub loop_options : Request → Provider → String → ToolLoopOptions
loop_options q p model = record {
  call = q.ask p model;
  on_tool_call = q.on_tool_call;
  estimate = cost_of model;
  max_cost = q.max_cost;
}

-- One pass of `callWithToolLoop`, with the time that it takes.
pub data Attempt : Type 0 where
  answered : (in_time : Bool) → LoopResult → Attempt
  failed : (in_time : Bool) → RouterError → Attempt

unfoldable pub await_loop : Request → Provider → String → Ending → Attempt
await_loop q p model (completes in_time) =
    answered in_time (call_with_tool_loop (loop_options q p model))
await_loop q p model (rejects in_time) = failed in_time provider_error

unfoldable pub attempt_with : Request → String → String → Resolved → Attempt
unfolding await_loop
attempt_with q name model (provider p) =
    elim (check_capabilities (q.capabilities name model) q.parts) [
      | some m ↦ failed true (capability_error name model m)
      | none ↦ await_loop q p model (q.ending p model)
    ]
attempt_with q name model base_url_refused = failed true (unresolved base_url_refused)
attempt_with q name model server_key_refused = failed true (unresolved server_key_refused)
attempt_with q name model no_key = failed true (unresolved no_key)

unfoldable pub attempt : Request → String → String → Option String → Attempt
unfolding attempt_with
attempt q name model base_url =
    attempt_with q name model (resolve_provider q.server name q.caller_keys q.creator_keys base_url)

pub record RouterResponse : Type 0 where
  pub content : String
  pub prompt_tokens : ℕ
  pub completion_tokens : ℕ
  pub total_tokens : ℕ
  pub cache_read_tokens : Option ℕ
  pub cache_write_tokens : Option ℕ
  pub estimated_cost : Amount
  pub provider_name : String
  pub model : String
  pub cost_exceeded : Bool

abbrev pub build_response : String → String → LoopResult → RouterResponse
build_response name model r = record {
  content = r.content;
  prompt_tokens = r.usage.prompt_tokens;
  completion_tokens = r.usage.completion_tokens;
  total_tokens = r.usage.prompt_tokens + r.usage.completion_tokens;
  cache_read_tokens = positive r.usage.cache_read_tokens;
  cache_write_tokens = positive r.usage.cache_write_tokens;
  estimated_cost = cost_of model r.usage;
  provider_name = name;
  model = model;
  cost_exceeded = r.cost_exceeded;
}

pub data Outcome : Type 0 where
  ok : RouterResponse → Outcome
  throw : RouterError → Outcome

-- An attempt that nothing races.
abbrev pub settle : String → String → Attempt → Outcome
settle name model (answered in_time r) = ok (build_response name model r)
settle name model (failed in_time e) = throw e

-- The fallback is called at its own endpoint.
unfoldable pub call_fallback : Request → Fallback → Outcome
call_fallback q f = settle f.provider_name f.model (attempt q f.provider_name f.model none)

-- The primary against the failover timeout: what is late, and what fails, goes to the fallback.
unfoldable pub race : Request → ModelConfig → Fallback → Attempt → Outcome
unfolding call_fallback
race q c f (answered true r) = ok (build_response c.provider_name c.model r)
race q c f (answered false r) = call_fallback q f
race q c f (failed in_time e) = call_fallback q f

unfoldable pub call : Request → ModelConfig → Outcome
unfolding race attempt
call q c =
    let primary = attempt q c.provider_name c.model c.base_url in
    elim c.fallback [ none ↦ settle c.provider_name c.model primary | some f ↦ race q c f primary ]
