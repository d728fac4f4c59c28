-- ===== src/Db/Listing/Totals.antt =====
-- The totals of `listAgents`, against the runs of the agent in the table.
use skrun.Base.{
  ℕ, ◌+◌, ◌≡◌, ◌≢◌, refl, String, Option, none, some, List, [], ◌∷◌, string_eq, nat_eq, filter,
  get_or, length, map, All, arith,
}
use skrun.JsMap
use skrun.JsMap.{JsMap, values}
use skrun.JsMap.Laws.{get-set}
use skrun.Schema.{Agent, Run}
use skrun.Db.Runs.{is_named}
use skrun.Db.Listing.{
  AgentCounts, no_counts, count_run, counted_for, add_to, agent_counts, with_counts, ListedAgent,
}

abbrev pub sum_of : (Run → ℕ) → List Run → ℕ
sum_of field [] = 0
sum_of field (r ∷ l) = field r + sum_of field l

-- The runs of an agent.
abbrev pub runs_of : String → List Run → List Run
runs_of id l = filter (λ (r : Run). is_named id r.agent_id) l

-- What a count comes to after the agent's runs in the list.
abbrev pub counts_of : String → AgentCounts → List Run → AgentCounts
counts_of id c l = record {
  runs = c.runs + length (runs_of id l);
  tokens = c.tokens + sum_of (λ r. r.usage_total_tokens) (runs_of id l);
  cost = c.cost + sum_of (λ r. r.usage_estimated_cost) (runs_of id l);
}

counts_step :
    (m : JsMap String AgentCounts) (id : String) (r : Run) (l : List Run) (a : Option String)
    → id ≢ ""
    → r.agent_id ≡ a
    → counts_of id (get_or (JsMap.get (add_to m r (counted_for a)) id) no_counts) l
      ≡ counts_of id (get_or (JsMap.get m id) no_counts) (r ∷ l)
counts_step m id r l none ne e = rw e refl
counts_step m id r l (some b) ne e =
    rw e (ground (arith, get-set m b id (count_run (get_or (JsMap.get m b) no_counts) r)))

pub agent_counts_lem :
    (m : JsMap String AgentCounts) (l : List Run) (id : String)
    → id ≢ ""
    → get_or (JsMap.get (agent_counts m l) id) no_counts
      ≡ counts_of id (get_or (JsMap.get m id) no_counts) l
unfolding agent_counts
agent_counts_lem m [] id ne = ground arith
agent_counts_lem m (r ∷ l) id ne = cc (
  agent_counts_lem (add_to m r (counted_for r.agent_id)) l id ne,
  counts_step m id r l r.agent_id ne refl,
)

-- The listed form of an agent, by its definition: the totals are over the agent's runs.
abbrev pub listed : List Run → Agent → ListedAgent
listed l agent = record {
  agent = agent;
  run_count = length (runs_of agent.id l);
  token_count = sum_of (λ r. r.usage_total_tokens) (runs_of agent.id l);
  cost_total = sum_of (λ r. r.usage_estimated_cost) (runs_of agent.id l);
}

with_counts-listed :
    (l : List Run) (agent : Agent)
    → agent.id ≢ ""
    → with_counts (agent_counts [] l) agent ≡ listed l agent
unfolding JsMap.get
with_counts-listed l agent ne = ground (arith, agent_counts_lem [] l agent.id ne)

pub map-listed :
    (l : List Run) (l2 : List Agent)
    → All (λ (a : Agent). a.id ≢ "") l2
    → map (with_counts (agent_counts [] l)) l2 ≡ map (listed l) l2
map-listed l [] h = refl
map-listed l (a ∷ l2) (h, hs) = cc (with_counts-listed l a h, map-listed l l2 hs)
