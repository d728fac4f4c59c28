-- ===== src/Llm/ToolLoop.antt =====
-- router.ts, `callWithToolLoop`, with cost-checker.ts. The provider is a function of what an iteration
-- sends that differs between iterations: the iteration's number, the tool calls of the one before and
-- their results. The handler of the tool calls answers each call; `estimate` is the cost of an
-- accumulated usage, `NaN` or an amount in any fixed unit.
pub mod Budget
use skrun.Base.{
  ℕ, zero, suc, ◌+◌, ◌*◌, String, Bool, true, false, Option, none, some, List, [], ◌∷◌, ◌++◌, map,
  ltb, if◌then◌else◌,
}
use skrun.Llm.Cost.{Amount, nan, usd}

pub record ToolCallRequest : Type 0 where
  pub name : String
  pub args : String
  pub id : Option String

pub record ToolCallResult : Type 0 where
  pub name : String
  pub result : String
  pub id : Option String

-- The accumulated tokens; an absent count of cached tokens is zero.
pub record Usage : Type 0 where
  pub prompt_tokens : ℕ
  pub completion_tokens : ℕ
  pub cache_read_tokens : ℕ
  pub cache_write_tokens : ℕ

pub record Response : Type 0 where
  pub content : String
  pub tool_calls : List ToolCallRequest
  pub usage : Usage

abbrev pub no_usage : Usage
no_usage = record {
  prompt_tokens = 0;
  completion_tokens = 0;
  cache_read_tokens = 0;
  cache_write_tokens = 0;
}

unfoldable pub add_usage : Usage → Usage → Usage
add_usage a b = record {
  prompt_tokens = a.prompt_tokens + b.prompt_tokens;
  completion_tokens = a.completion_tokens + b.completion_tokens;
  cache_read_tokens = a.cache_read_tokens + b.cache_read_tokens;
  cache_write_tokens = a.cache_write_tokens + b.cache_write_tokens;
}

-- `checkCost(estimatedCost, maxCost).exceeded`; `NaN` is greater than nothing.
abbrev pub check_cost : Amount → Option ℕ → Bool
check_cost estimated none = false
check_cost nan (some max_cost) = false
check_cost (usd estimated) (some max_cost) = ltb max_cost estimated

-- What the loop is given.
pub record ToolLoopOptions : Type 0 where
  pub call : ℕ → List ToolCallRequest → List ToolCallResult → Response
  pub on_tool_call : Option (ToolCallRequest → ToolCallResult)
  pub estimate : Usage → Amount
  pub max_cost : Option ℕ

-- What the loop returns, with what it did: the responses that it got, and for each tool call that it
-- executed the usage at that time.
pub record LoopResult : Type 0 where
  pub content : String
  pub usage : Usage
  pub cost_exceeded : Bool
  pub responses : List Response
  pub executed : List (ToolCallRequest × Usage)

abbrev pub max_tool_iterations : ℕ
max_tool_iterations = 10

abbrev pub max_iterations_message : String
max_iterations_message =
    "[Max tool iterations reached — agent may need fewer tool calls or a higher iteration limit]"

-- The end of an iteration that returns.
abbrev pub finish : Response → Usage → Bool → LoopResult
finish r usage exceeded = record {
  content = r.content;
  usage = usage;
  cost_exceeded = exceeded;
  responses = r ∷ [];
  executed = [];
}

-- An iteration that goes on, before what follows it.
abbrev pub after_tools : Response → Usage → LoopResult → LoopResult
after_tools r usage rest = record rest {
  responses = r ∷ rest.responses;
  executed = map (λ call. (call, usage)) r.tool_calls ++ rest.executed;
}

-- `!response.toolCalls?.length || !onToolCall`
abbrev pub is_final : Option (ToolCallRequest → ToolCallResult) → List ToolCallRequest → Bool
is_final none calls = true
is_final (some handle) [] = true
is_final (some handle) (c ∷ cs) = false

abbrev pub handle_all :
    Option (ToolCallRequest → ToolCallResult) → List ToolCallRequest → List ToolCallResult
handle_all none calls = []
handle_all (some handle) calls = map handle calls

-- The `for` loop with `left` iterations to go.
unfoldable pub iterate :
    ToolLoopOptions → ℕ → ℕ → Usage → List ToolCallRequest → List ToolCallResult → LoopResult
iterate o zero i total calls results = record {
  content = max_iterations_message;
  usage = total;
  cost_exceeded = false;
  responses = [];
  executed = [];
}
iterate o (suc left) i total calls results =
    let r = o.call i calls results in
    let spent = add_usage total r.usage in
    let next = iterate o left (suc i) spent r.tool_calls (handle_all o.on_tool_call r.tool_calls) in
    if check_cost (o.estimate spent) o.max_cost
    then finish r spent true
    else if is_final o.on_tool_call r.tool_calls
    then finish r spent false
    else after_tools r spent next

unfoldable pub call_with_tool_loop : ToolLoopOptions → LoopResult
unfolding iterate
call_with_tool_loop o = iterate o max_tool_iterations 0 no_usage [] []
