-- ===== src/Examples/Llm.antt =====
-- The tool loop with a model that always asks for a tool, and a provider with a caller's key.
use skrun.Base.{
  ◌+◌, ◌≤◌, ◌≡◌, ◌↔◌, ◌⊎◌, refl, true, false, none, some, [], ◌∷◌, length, All, string_discrete,
}
use skrun.JsMap
use skrun.Llm.Cost.{usd}
use skrun.Llm.ToolLoop.{
  ToolCallRequest, Usage, no_usage, check_cost, ToolLoopOptions, call_with_tool_loop,
  max_tool_iterations,
}
use skrun.Llm.ToolLoop.Budget.{total_usage, IsWithin, call_with_tool_loop_lem}
use skrun.Llm.Keys.{
  Server, with_caller_key, resolve_provider, resolve_keys, endpoint, truthy, is_refused,
  uses_server_key, key_of, resolve_provider_lem,
}

-- A model that asks for one more tool call each time, at ten tokens a call.
abbrev eager : ToolLoopOptions
eager = record {
  call = λ i calls results. record {
    content = "";
    tool_calls = record { name = "search"; args = "{}"; id = none } ∷ [];
    usage = record {
      prompt_tokens = 7;
      completion_tokens = 3;
      cache_read_tokens = 0;
      cache_write_tokens = 0;
    };
  };
  on_tool_call = some (λ call. record { name = call.name; result = "ok"; id = call.id });
  estimate = λ u. usd (u.prompt_tokens + u.completion_tokens);
  max_cost = some 35;
}

call_with_tool_loop_example :
    (length (call_with_tool_loop eager).responses ≤ max_tool_iterations)
    × ((call_with_tool_loop eager).usage
        ≡ total_usage no_usage (call_with_tool_loop eager).responses)
    × (((call_with_tool_loop eager).cost_exceeded ≡ true)
        ↔ (check_cost (eager.estimate (call_with_tool_loop eager).usage) (some 35) ≡ true))
    × All (λ (e : ToolCallRequest × Usage). IsWithin eager e.1) (call_with_tool_loop eager).executed
call_with_tool_loop_example = call_with_tool_loop_lem eager refl

abbrev server : Server
server = record {
  base_url_allowed = λ url. true;
  server_key_with_custom_base_url_allowed = false;
  env_key = λ name. some "server-key";
  registered = λ name. true;
}

resolve_provider_example :
    (endpoint (with_caller_key "k" (some "https://llm.test")) ≡ truthy (some "https://llm.test"))
    × (is_refused server (truthy (some "https://llm.test")) ≡ false)
    × ((uses_server_key (with_caller_key "k" (some "https://llm.test")) ≡ false)
        ⊎ (key_of (("openai", "k") ∷ []) "openai" ≡ none)
          × (key_of [] "openai" ≡ none)
          × ((truthy (some "https://llm.test") ≡ none)
              ⊎ (server.server_key_with_custom_base_url_allowed ≡ true)))
unfolding resolve_provider resolve_keys JsMap.get string_discrete
resolve_provider_example =
    resolve_provider_lem server "openai" (("openai", "k") ∷ []) [] (some "https://llm.test")
      (with_caller_key "k" (some "https://llm.test")) refl
