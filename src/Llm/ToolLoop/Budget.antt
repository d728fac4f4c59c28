-- ===== src/Llm/ToolLoop/Budget.antt =====
-- The bounds of the tool loop: its iterations and its cost.
use skrun.Base.{
  ℕ, zero, suc, ◌≤◌, ◌≡◌, refl, Bool, true, false, List, [], ◌∷◌, map, length, All, All-append,
  arith, inl, inr, ◌∙◌, Bool-cases, ◌↔◌,
}
use skrun.Llm.ToolLoop.{
  ToolCallRequest, ToolCallResult, Usage, Response, no_usage, add_usage, check_cost,
  ToolLoopOptions, LoopResult, max_tool_iterations, is_final, handle_all, finish, after_tools,
  iterate, call_with_tool_loop,
}

-- The usage of all the responses, added up on what there was.
abbrev pub total_usage : Usage → List Response → Usage
total_usage u [] = u
total_usage u (r ∷ rs) = total_usage (add_usage u r.usage) rs

-- The ceiling was not passed at the usage.
abbrev pub IsWithin : ToolLoopOptions → Usage → Type 0
IsWithin o u = check_cost (o.estimate u) o.max_cost ≡ false

pub record IsBounded (o : ToolLoopOptions) (left : ℕ) (u : Usage) (r : LoopResult) : Type 0 where
  pub few : length r.responses ≤ left
  pub counted : r.usage ≡ total_usage u r.responses
  pub flagged : r.cost_exceeded ≡ true → check_cost (o.estimate r.usage) o.max_cost ≡ true
  pub stopped : IsWithin o u → r.cost_exceeded ≡ false → IsWithin o r.usage
  pub paid : All (λ (e : ToolCallRequest × Usage). IsWithin o e.1) r.executed

module _ (o : ToolLoopOptions) where
  finish-IsBounded :
      (left : ℕ) (u : Usage) (r : Response) (exceeded : Bool)
      → check_cost (o.estimate (add_usage u r.usage)) o.max_cost ≡ exceeded
      → IsBounded o (suc left) u (finish r (add_usage u r.usage) exceeded)
  finish-IsBounded left u r exceeded e = record {
    few = omega arith;
    counted = refl;
    flagged = λ h. e ∙ h;
    stopped = λ w h. e ∙ h;
    paid = tt;
  }

  executed-IsWithin :
      (calls : List ToolCallRequest) (u : Usage)
      → IsWithin o u
      → All (λ (e : ToolCallRequest × Usage). IsWithin o e.1) (map (λ call. (call, u)) calls)
  executed-IsWithin [] u w = tt
  executed-IsWithin (c ∷ cs) u w = (w, executed-IsWithin cs u w)

  after_tools-IsBounded :
      (left : ℕ) (u : Usage) (r : Response) (rest : LoopResult)
      → IsWithin o (add_usage u r.usage)
      → IsBounded o left (add_usage u r.usage) rest
      → IsBounded o (suc left) u (after_tools r (add_usage u r.usage) rest)
  after_tools-IsBounded left u r rest w b = record {
    few = omega (arith, b.few);
    counted = b.counted;
    flagged = b.flagged;
    stopped = λ _ h. b.stopped w h;
    paid =
        All-append (λ (e : ToolCallRequest × Usage). IsWithin o e.1) _ _
          (executed-IsWithin r.tool_calls (add_usage u r.usage) w) b.paid;
  }

  iterate-IsBounded :
      (left i : ℕ) (u : Usage) (calls : List ToolCallRequest) (results : List ToolCallResult)
      → IsBounded o left u (iterate o left i u calls results)
  unfolding iterate
  iterate-IsBounded zero i u calls results = record {
    few = omega arith;
    counted = refl;
    flagged = λ h. cc;
    stopped = λ w h. w;
    paid = tt;
  }
  iterate-IsBounded (suc left) i u calls results =
      let r = o.call i calls results in
      let spent = add_usage u r.usage in
      elim (Bool-cases (check_cost (o.estimate spent) o.max_cost)) [
        | inl t ↦ rw t (finish-IsBounded left u r true t)
        | inr t ↦ elim (Bool-cases (is_final o.on_tool_call r.tool_calls)) [
          | inl f ↦ rw (t, f) (finish-IsBounded left u r false t)
          | inr f ↦
              rw (t, f)
                (after_tools-IsBounded left u r _ t (
                  iterate-IsBounded left (suc i) spent r.tool_calls
                    (handle_all o.on_tool_call r.tool_calls)))
        ]
      ]

  flag_iff :
      (left : ℕ) (r : LoopResult)
      → IsWithin o no_usage
      → IsBounded o left no_usage r
      → (r.cost_exceeded ≡ true) ↔ (check_cost (o.estimate r.usage) o.max_cost ≡ true)
  flag_iff left r w b = (
    b.flagged,
    λ h. elim (Bool-cases r.cost_exceeded) [ inl t ↦ t | inr t ↦ cc (b.stopped w t, h) ],
  )

-- The loop makes at most ten calls of the model and reports the usage of exactly those calls. It reports
-- that the ceiling was passed exactly when the cost of the usage that it reports passes it, as long as
-- spending nothing does not, and every tool call that it executes is executed while the cost of the
-- calls so far is within the ceiling.
pub call_with_tool_loop_lem :
    (o : ToolLoopOptions)
    → IsWithin o no_usage
    → let r = call_with_tool_loop o in
      (length r.responses ≤ max_tool_iterations)
      × (r.usage ≡ total_usage no_usage r.responses)
      × ((r.cost_exceeded ≡ true) ↔ (check_cost (o.estimate r.usage) o.max_cost ≡ true))
      × All (λ (e : ToolCallRequest × Usage). IsWithin o e.1) r.executed
unfolding call_with_tool_loop
call_with_tool_loop_lem o w =
    let b = iterate-IsBounded o max_tool_iterations 0 no_usage [] [] in
    (b.few, b.counted, flag_iff o max_tool_iterations _ w b, b.paid)
