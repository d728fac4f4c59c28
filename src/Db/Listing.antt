-- ===== src/Db/Listing.antt =====
-- memory.ts, `listAgents`: a page of the agents with the totals of their runs.
pub mod Totals
pub mod Pages
use skrun.Base.{
  ℕ, zero, suc, ◌+◌, ◌-◌, ◌*◌, String, Bool, true, false, Option, none, some, List, [], ◌∷◌, ◌==◌,
  string_eq, nat_eq, filter, if◌then◌else◌, get_or, take, drop, length, map,
}
use skrun.JsMap
use skrun.JsMap.{JsMap, values}
use skrun.Schema.{Agent, Run}
use skrun.Db.{MemoryDb}

pub record AgentCounts : Type 0 where
  pub runs : ℕ
  pub tokens : ℕ
  pub cost : ℕ

abbrev pub no_counts : AgentCounts
no_counts = record { runs = 0; tokens = 0; cost = 0 }

abbrev pub count_run : AgentCounts → Run → AgentCounts
count_run counts run = record {
  runs = counts.runs + 1;
  tokens = counts.tokens + run.usage_total_tokens;
  cost = counts.cost + run.usage_estimated_cost;
}

-- The agent that a run is counted for: an absent and an empty identifier are skipped.
abbrev pub counted_for : Option String → Option String
counted_for none = none
counted_for (some id) = if id == "" then none else some id

abbrev pub add_to : JsMap String AgentCounts → Run → Option String → JsMap String AgentCounts
add_to counts run none = counts
add_to counts run (some id) =
    JsMap.set counts id (count_run (get_or (JsMap.get counts id) no_counts) run)

-- The loop over the runs that fills `agentCounts`.
unfoldable pub agent_counts : JsMap String AgentCounts → List Run → JsMap String AgentCounts
agent_counts counts [] = counts
agent_counts counts (run ∷ l) = agent_counts (add_to counts run (counted_for run.agent_id)) l

pub record ListedAgent : Type 0 where
  pub agent : Agent
  pub run_count : ℕ
  pub token_count : ℕ
  pub cost_total : ℕ

abbrev pub with_counts : JsMap String AgentCounts → Agent → ListedAgent
with_counts counts agent =
    let c = get_or (JsMap.get counts agent.id) no_counts in
    record { agent = agent; run_count = c.runs; token_count = c.tokens; cost_total = c.cost }

-- `userId ? all.filter(...) : all`
abbrev pub owned_by : Option String → List Agent → List Agent
owned_by none all_agents = all_agents
owned_by (some user_id) all_agents =
    if user_id == "" then all_agents else filter (λ a. a.owner_id == user_id) all_agents

-- `slice((page - 1) * limit, (page - 1) * limit + limit)`; page 0 ends before the first element.
abbrev pub page_of {ℓ} : {A : Type ℓ} → ℕ → ℕ → List A → List A
page_of zero limit l = []
page_of (suc before) limit l = take limit (drop (before * limit) l)

unfoldable pub list_agents : MemoryDb → ℕ → ℕ → Option String → List ListedAgent × ℕ
unfolding agent_counts
list_agents db page limit user_id =
    let filtered = owned_by user_id (values db.agents) in
    let counts = agent_counts [] (values db.runs) in
    (map (with_counts counts) (page_of page limit filtered), length filtered)
