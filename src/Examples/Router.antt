-- ===== src/Examples/Router.antt =====
-- The router at a request whose primary model hangs.
use skrun.Base.{
  is_inherited, ◌≡◌, ◌↔◌, ◌⊎◌, refl, String, true, false, none, some, Option, [], ◌∷◌, ◌==◌,
  string_eq, string_discrete, ℕ_discrete,
}
use skrun.JsMap
use skrun.Network.{is_private_host}
use skrun.Network.Codes.{codes}
use skrun.Llm.Cost.{nan, usd, pricing, pricing_of, estimate_cost, estimate_cache_savings}
use skrun.Llm.Keys.{Server, with_caller_key, resolve_provider, resolve_keys}
use skrun.Llm.Endpoint.{ParsedUrl, with_url_check, assert_model_base_url_allowed, endpoint_public}
use skrun.Llm.ToolLoop.{call_with_tool_loop, check_cost}
use skrun.Llm.Call.{
  Request, ModelConfig, completes, call, call_fallback, attempt, attempt_with, await_loop, race,
  RouterResponse, build_response, loop_options, ok,
}
use skrun.Llm.Call.Answer.{call_lem, fallback_answers}

-- Every address is an https one of one public host.
abbrev parse : String → Option ParsedUrl
parse url = some (record { protocol = "https:"; hostname = codes "llm.test" })

abbrev server : Server
server = with_url_check parse false (record {
  base_url_allowed = λ url. true;
  server_key_with_custom_base_url_allowed = false;
  env_key = λ name. none;
  registered = λ name. true;
})

-- The caller has a key for each of the two providers.
abbrev request : Request
request = record {
  server = server;
  caller_keys = ("openai", "k1") ∷ ("google", "k2") ∷ [];
  creator_keys = [];
  capabilities = λ name model. none;
  parts = [];
  ask = λ p model i calls results. record {
    content = "hello";
    tool_calls = [];
    usage = record {
      prompt_tokens = 7;
      completion_tokens = 3;
      cache_read_tokens = 0;
      cache_write_tokens = 0;
    };
  };
  ending = λ p model. completes (model == "gemini-2.5-pro");
  on_tool_call = none;
  max_cost = some 100;
}

abbrev config : ModelConfig
config = record {
  provider_name = "openai";
  model = "gpt-5.4";
  base_url = none;
  fallback = some (record { provider_name = "google"; model = "gemini-2.5-pro" });
}

abbrev answer : RouterResponse
answer =
    build_response "google" "gemini-2.5-pro"
      (call_with_tool_loop (loop_options request (with_caller_key "k2" none) "gemini-2.5-pro"))

call_lem_example :
    (answer.cost_exceeded ≡ true) ↔ (check_cost answer.estimated_cost (some 100) ≡ true)
unfolding call call_fallback attempt attempt_with await_loop race resolve_provider resolve_keys
    JsMap.get string_discrete
call_lem_example = (call_lem request config {resp = answer} refl).1

fallback_answers_example : (resp : RouterResponse) × (call request config ≡ ok resp)
unfolding attempt attempt_with await_loop resolve_provider resolve_keys JsMap.get string_discrete
fallback_answers_example =
    fallback_answers request config (record { provider_name = "google"; model = "gemini-2.5-pro" })
      true (call_with_tool_loop (loop_options request (with_caller_key "k2" none) "gemini-2.5-pro"))
      refl refl

endpoint_public_example :
    (u : ParsedUrl) × (parse "https://llm.test/v1" ≡ some u)
    × ((u.protocol ≡ "http:") ⊎ (u.protocol ≡ "https:"))
    × (is_private_host u.hostname ≡ false)
unfolding resolve_provider resolve_keys JsMap.get string_discrete assert_model_base_url_allowed
    is_private_host ℕ_discrete
endpoint_public_example =
    endpoint_public parse server "openai" (("openai", "k") ∷ []) [] (some "https://llm.test/v1")
      (with_caller_key "k" (some "https://llm.test/v1")) "https://llm.test/v1" refl refl

-- A model that is named like a member of every object costs `NaN`.
constructor_cost : estimate_cost "constructor" 10 3 none none ≡ nan
unfolding estimate_cost pricing_of pricing is_inherited JsMap.get string_discrete
constructor_cost = refl

-- The discount of a hundred cached tokens, in millionths of a dollar.
opus_savings : estimate_cache_savings "claude-opus-4-7" 100 ≡ usd 450
unfolding estimate_cache_savings pricing_of pricing is_inherited JsMap.get string_discrete
    ℕ_discrete
opus_savings = refl
