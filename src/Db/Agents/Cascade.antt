-- ===== src/Db/Agents/Cascade.antt =====
-- What `deleteAgent` takes away with the agent, and what it leaves.
use skrun.Base.{
  String, Bool, false, not, none, some, List, [], ◌∷◌, ◌==◌, string_eq, contains, filter,
  if◌then◌else◌, get_or, ◌≡◌, refl, arith,
}
use skrun.JsMap
use skrun.JsMap.{JsMap, Distinct}
use skrun.JsMap.Laws.{get-delete}
use skrun.Schema.{Agent}
use skrun.Db.{MemoryDb}
use skrun.Db.Agents.{agent_key, revoke_grants, delete_agent}

-- Whether the key is granted the agent.
abbrev pub granted : JsMap String (List String) → String → String → Bool
granted m key_id agent_id = contains (get_or (JsMap.get m key_id) []) agent_id

contains-filter :
    (a x : String) (ids : List String)
    → contains (filter (λ aid. not (aid == a)) ids) x ≡ (if x == a then false else contains ids x)
contains-filter a x [] = ground arith
contains-filter a x (y ∷ ids) = ground (arith, contains-filter a x ids)

get-revoke_absent :
    (a : String) (m : JsMap String (List String)) (k : String)
    → JsMap.get m k ≡ none
    → JsMap.get (revoke_grants a m) k ≡ none
unfolding JsMap.get revoke_grants
get-revoke_absent a [] k h = refl
get-revoke_absent a ((j, ids) ∷ m) k h = ground (arith, get-revoke_absent a m k)

granted-revoke :
    (a : String) (m : JsMap String (List String)) (k x : String)
    → Distinct m
    → granted (revoke_grants a m) k x ≡ (if x == a then false else granted m k x)
unfolding JsMap.get revoke_grants
granted-revoke a [] k x d = ground arith
granted-revoke a ((j, ids) ∷ m) k x (new, d) =
    ground (arith, granted-revoke a m k x d, get-revoke_absent a m j, contains-filter a x ids)

-- `deleteAgent` of an agent that is there removes it, its versions and its creator keys, and takes
-- it out of every scoped key's grants; it leaves every other agent, the versions and creator keys of
-- every other identifier, and every key's grant of any other agent.
pub delete_agent_lem :
    (db : MemoryDb) (namespace name : String) (agent : Agent)
    → Distinct db.agents
    → Distinct db.versions
    → Distinct db.agent_llm_keys
    → Distinct db.api_key_agents
    → JsMap.get db.agents (agent_key namespace name) ≡ some agent
    → (key id : String)
    → let db' = (delete_agent db namespace name).0 in
      (JsMap.get db'.agents key
        ≡ (if agent_key namespace name == key then none else JsMap.get db.agents key))
      × (JsMap.get db'.versions id ≡ (if agent.id == id then none else JsMap.get db.versions id))
      × (JsMap.get db'.agent_llm_keys id
          ≡ (if agent.id == id then none else JsMap.get db.agent_llm_keys id))
      × (granted db'.api_key_agents key id
          ≡ (if id == agent.id then false else granted db.api_key_agents key id))
unfolding delete_agent
delete_agent_lem db namespace name agent da dv dl dg e key id =
    rw (e, delete_agent)
      (
        get-delete db.agents (agent_key namespace name) key da,
        get-delete db.versions agent.id id dv,
        get-delete db.agent_llm_keys agent.id id dl,
        granted-revoke agent.id db.api_key_agents key id dg,
      )
