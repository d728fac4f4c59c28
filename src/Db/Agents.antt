-- ===== src/Db/Agents.antt =====
-- memory.ts, the agents and their versions: each operation that reads or writes these tables.
pub mod Cascade
pub mod Lookup
use skrun.Base.{
  ℕ, String, Bool, true, false, not, Option, none, some, List, [], ◌∷◌, ◌++◌, ◌==◌, string_eq,
  contains, filter, find, update_first, get_last?, if◌then◌else◌, template, get_or,
}
use skrun.JsMap
use skrun.JsMap.{JsMap}
use skrun.Schema.{Agent, AgentVersion, Visibility, private_agent, AgentLlmKeyPolicy, open_policy}
use skrun.Db.{MemoryDb}

abbrev pub agent_key : String → String → String
agent_key namespace name = template (namespace ∷ "/" ∷ name ∷ [])

pub record NewAgent : Type 0 where
  pub name : String
  pub namespace : String
  pub description : String
  pub owner_id : String
  pub visibility : Option Visibility

unfoldable pub create_agent : MemoryDb → NewAgent → ℕ → String → MemoryDb × Agent
create_agent db row now uuid =
    let agent : Agent = record {
      id = uuid;
      name = row.name;
      namespace = row.namespace;
      description = row.description;
      owner_id = row.owner_id;
      visibility = get_or row.visibility private_agent;
      llm_key_policy = open_policy;
      created_at = now;
      updated_at = now;
    } in
    (
      record db {
        agents = JsMap.set db.agents (agent_key row.namespace row.name) agent;
        versions = JsMap.set db.versions uuid [];
      },
      agent,
    )

unfoldable pub get_agent : MemoryDb → String → String → Option Agent
get_agent db namespace name = JsMap.get db.agents (agent_key namespace name)

unfoldable pub set_visibility :
    MemoryDb → String → String → Visibility → ℕ → MemoryDb × Option Agent
set_visibility db namespace name visibility now =
    elim (JsMap.get db.agents (agent_key namespace name)) [
      | none ↦ (db, none)
      | some agent ↦
          let agent' : Agent = record agent { visibility = visibility; updated_at = now } in
          (
            record db { agents = JsMap.set db.agents (agent_key namespace name) agent' },
            some agent',
          )
    ]

unfoldable pub set_llm_key_policy :
    MemoryDb → String → String → AgentLlmKeyPolicy → ℕ → MemoryDb × Option Agent
set_llm_key_policy db namespace name policy now =
    elim (JsMap.get db.agents (agent_key namespace name)) [
      | none ↦ (db, none)
      | some agent ↦
          let agent' : Agent = record agent { llm_key_policy = policy; updated_at = now } in
          (
            record db { agents = JsMap.set db.agents (agent_key namespace name) agent' },
            some agent',
          )
    ]

-- The loop of `deleteAgent` over the grants of the scoped keys.
unfoldable pub revoke_grants : String → JsMap String (List String) → JsMap String (List String)
revoke_grants agent_id [] = []
revoke_grants agent_id ((key_id, ids) ∷ m) =
    let rest = revoke_grants agent_id m in
    if contains ids agent_id
    then elim (filter (λ aid. not (aid == agent_id)) ids) [
      | [] ↦ rest
      | next ∷ more ↦ (key_id, next ∷ more) ∷ rest
    ]
    else (key_id, ids) ∷ rest

unfoldable pub delete_agent : MemoryDb → String → String → MemoryDb × Bool
delete_agent db namespace name = elim (JsMap.get db.agents (agent_key namespace name)) [
  | none ↦ (db, false)
  | some agent ↦ (
    record db {
      versions = JsMap.delete db.versions agent.id;
      agents = JsMap.delete db.agents (agent_key namespace name);
      api_key_agents = revoke_grants agent.id db.api_key_agents;
      agent_llm_keys = JsMap.delete db.agent_llm_keys agent.id;
    },
    true,
  )
]

pub record NewVersion : Type 0 where
  pub version : String
  pub size : ℕ
  pub bundle_key : String
  pub bundle_sha256 : Option String
  pub config_snapshot : Option String
  pub notes : Option String

-- The loop that stamps the first agent with the identifier.
unfoldable pub touch_agent : String → ℕ → JsMap String Agent → JsMap String Agent
touch_agent agent_id now =
    update_first (λ (e : String × Agent). e.1.id == agent_id)
      (λ e. (e.0, record e.1 { updated_at = now }))

unfoldable pub create_version :
    MemoryDb → String → NewVersion → ℕ → String → MemoryDb × AgentVersion
create_version db agent_id row now uuid =
    let version : AgentVersion = record {
      id = uuid;
      agent_id = agent_id;
      version = row.version;
      size = row.size;
      bundle_key = row.bundle_key;
      bundle_sha256 = row.bundle_sha256;
      config_snapshot = row.config_snapshot;
      notes = row.notes;
      pushed_at = now;
      verified = false;
    } in
    (
      record db {
        versions =
            JsMap.set db.versions agent_id
              (get_or (JsMap.get db.versions agent_id) [] ++ version ∷ []);
        agents = touch_agent agent_id now db.agents;
      },
      version,
    )

unfoldable pub get_versions : MemoryDb → String → List AgentVersion
get_versions db agent_id = get_or (JsMap.get db.versions agent_id) []

unfoldable pub get_latest_version : MemoryDb → String → Option AgentVersion
unfolding get_versions
get_latest_version db agent_id = get_last? (get_versions db agent_id)

abbrev pub is_version : String → AgentVersion → Bool
is_version version v = v.version == version

unfoldable pub get_version_by_number : MemoryDb → String → String → Option AgentVersion
unfolding get_versions
get_version_by_number db agent_id version = find (is_version version) (get_versions db agent_id)

unfoldable pub delete_version : MemoryDb → String → String → MemoryDb
delete_version db agent_id version = elim (JsMap.get db.versions agent_id) [
  | none ↦ db
  | some versions ↦ record db {
    versions = JsMap.set db.versions agent_id (filter (λ v. not (is_version version v)) versions);
  }
]

-- The write to the version that `find` gave.
abbrev pub mark : String → Bool → List AgentVersion → List AgentVersion
mark version verified = update_first (is_version version) (λ v. record v { verified = verified })

unfoldable pub set_version_verified :
    MemoryDb → String → String → String → Bool → MemoryDb × Option AgentVersion
unfolding get_agent
set_version_verified db namespace name version verified = elim (get_agent db namespace name) [
  | none ↦ (db, none)
  | some agent ↦ elim (JsMap.get db.versions agent.id) [
    | none ↦ (db, none)
    | some versions ↦ elim (find (is_version version) versions) [
      | none ↦ (db, none)
      | some target ↦ (
        record db { versions = JsMap.set db.versions agent.id (mark version verified versions) },
        some (record target { verified = verified }),
      )
    ]
  ]
]
