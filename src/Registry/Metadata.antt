-- ===== src/Registry/Metadata.antt =====
-- The two ways in which the registry counts an agent's runs agree.
use skrun.Base.{
  ℕ, ◌+◌, ◌≡◌, ◌≢◌, ◌∙◌, ap, sym, refl, String, true, Option, some, List, [], ◌∷◌, string_eq, arith,
  filter, length, map, All, drop, zero, suc, ◌*◌, All-take, All-drop,
}
use skrun.JsMap.{values}
use skrun.Schema.{Agent, Run}
use skrun.Db.{MemoryDb}
use skrun.Db.Agents.{get_agent}
use skrun.Db.Runs.{list_runs, insert_run, newest_first, by_name}
use skrun.Db.Listing.{list_agents, owned_by, page_of}
use skrun.Db.Listing.Totals.{runs_of, sum_of, listed, map-listed}
use skrun.Db.Listing.Pages.{owned_by-All}
use skrun.Registry.{ok}
use skrun.Registry.Service.{
  RegistryService, AgentMetadata, sum_tokens, agent_runs, metadata_of, build_metadata, listing_of,
}
use skrun.Registry.Service as Service

insert_run_totals :
    (r : Run) (l : List Run)
    → (length (insert_run r l) ≡ length l + 1)
      × (sum_tokens (insert_run r l) ≡ r.usage_total_tokens + sum_tokens l)
unfolding insert_run
insert_run_totals r [] = omega arith
insert_run_totals r (s ∷ l) = ground (arith, insert_run_totals r l)

newest_first_totals :
    (l : List Run)
    → (length (newest_first l) ≡ length l) × (sum_tokens (newest_first l) ≡ sum_tokens l)
unfolding newest_first
newest_first_totals [] = (refl, refl)
newest_first_totals (r ∷ l) =
    omega (arith, insert_run_totals r (newest_first l), newest_first_totals l)

filter_every : (l : List Run) → filter (λ (r : Run). true) l ≡ l
filter_every [] = refl
filter_every (r ∷ l) = cc (filter_every l)

filter_agent :
    (id : String) (l : List Run)
    → id ≢ ""
    → filter (by_name (some id) (λ r. r.agent_id)) l ≡ runs_of id l
filter_agent id [] ne = refl
filter_agent id (r ∷ l) ne = ground (arith, filter_agent id l)

sum_of_tokens : (l : List Run) → sum_of (λ r. r.usage_total_tokens) l ≡ sum_tokens l
sum_of_tokens [] = refl
sum_of_tokens (r ∷ l) = omega (arith, sum_of_tokens l)

agent_runs_lem :
    (db : MemoryDb) (id : String)
    → id ≢ ""
    → agent_runs db id ≡ newest_first (runs_of id (values db.runs))
unfolding list_runs
agent_runs_lem db id ne =
    rw
      (
        filter_every (filter (by_name (some id) (λ r. r.agent_id)) (values db.runs)),
        filter_every (filter (by_name (some id) (λ r. r.agent_id)) (values db.runs)),
      )
      (ap newest_first (filter_agent id (values db.runs) ne))

-- The agent has an identifier, and is the one under its name.
abbrev pub IsFiled : MemoryDb → Agent → Type 0
IsFiled db a = (a.id ≢ "") × (get_agent db a.namespace a.name ≡ some a)

metadata_agrees :
    (db : MemoryDb) (a : Agent)
    → IsFiled db a
    → ok (listing_of db (listed (values db.runs) a)) ≡ build_metadata db a.namespace a.name
unfolding build_metadata
metadata_agrees db a (ne, here) =
    let runs = runs_of a.id (values db.runs) in
    let same = agent_runs_lem db a.id ne in
    let (count, tokens) = newest_first_totals runs in
    let count' : length runs ≡ length (agent_runs db a.id) = sym (ap length same ∙ count) in
    let tokens' : sum_of (λ r. r.usage_total_tokens) runs ≡ sum_tokens (agent_runs db a.id) =
      sum_of_tokens runs ∙ sym (ap sum_tokens same ∙ tokens) in
    rw (build_metadata, here, count', tokens') refl

map_agrees :
    (db : MemoryDb) (l : List Agent)
    → All (IsFiled db) l
    → map (λ (m : AgentMetadata). ok m) (map (listing_of db) (map (listed (values db.runs)) l))
      ≡ map (λ (a : Agent). build_metadata db a.namespace a.name) l
map_agrees db [] h = refl
map_agrees db (a ∷ l) (h, hs) = cc (metadata_agrees db a h, map_agrees db l hs)

page-All :
    (P : Agent → Type 0) (page limit : ℕ) (l : List Agent) → All P l → All P (page_of page limit l)
page-All P zero limit l h = tt
page-All P (suc before) limit l h =
    All-take P limit (drop (before * limit) l) (All-drop P (before * limit) l h)

named : (db : MemoryDb) (l : List Agent) → All (IsFiled db) l → All (λ (a : Agent). a.id ≢ "") l
named db [] h = tt
named db (a ∷ l) (h, hs) = (h.0, named db l hs)

-- In a database whose agents have identifiers and are filed under their names, an entry of `list` is
-- what `getMetadata` gives for its agent: the two sum up the runs in different ways, and agree.
pub list_agrees :
    (s : RegistryService) (page limit : ℕ) (user_id : Option String)
    → All (IsFiled s.db) (values s.db.agents)
    → map (λ (m : AgentMetadata). ok m) (Service.list s page limit user_id).0
      ≡ map
          (λ (a : Agent). build_metadata s.db a.namespace a.name)
          (page_of page limit (owned_by user_id (values s.db.agents)))
unfolding Service.list list_agents
list_agrees s page limit user_id filed =
    let mine = page_of page limit (owned_by user_id (values s.db.agents)) in
    let filed' : All (IsFiled s.db) mine =
      page-All (IsFiled s.db) page limit _ (owned_by-All (IsFiled s.db) user_id _ filed) in
    ap (λ l. map (λ (m : AgentMetadata). ok m) (map (listing_of s.db) l))
      (map-listed (values s.db.runs) mine (named s.db mine filed'))
    ∙ map_agrees s.db mine filed'
