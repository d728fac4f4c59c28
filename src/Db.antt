-- ===== src/Db.antt =====
-- packages/api/src/db/memory.ts: the in-memory database. Its state is the record below, one `Map` to
-- a field; an operation takes the state, and the instant `now` and the fresh identifier `uuid` where
-- the source asks the clock and `randomUUID`, and returns the new state beside its answer. An answer
-- is a copy of the row: the callers of the source do not write to the rows that they are handed.
pub mod Agents
pub mod ApiKeys
pub mod DeviceCodes
pub mod LlmKeys
pub mod Listing
pub mod Runs
use skrun.Base.{String, List, []}
use skrun.JsMap.{JsMap}
use skrun.Schema.{
  Agent, AgentVersion, User, ApiKey, AgentLlmKeyRow, DeviceCode, Session, Run, Environment,
}

-- `states` and a run's documents are opaque, and held as their text.
pub record MemoryDb : Type 0 where
  pub agents : JsMap String Agent
  pub versions : JsMap String (List AgentVersion)
  pub states : JsMap String String
  pub users : JsMap String User
  pub users_by_github_id : JsMap String String
  pub api_keys : JsMap String ApiKey
  pub api_keys_by_hash : JsMap String String
  pub api_key_agents : JsMap String (List String)
  pub agent_llm_keys : JsMap String (List AgentLlmKeyRow)
  pub device_codes : JsMap String DeviceCode
  pub sessions : JsMap String Session
  pub runs : JsMap String Run
  pub environments : JsMap String Environment

abbrev pub empty : MemoryDb
empty = record {
  agents = [];
  versions = [];
  states = [];
  users = [];
  users_by_github_id = [];
  api_keys = [];
  api_keys_by_hash = [];
  api_key_agents = [];
  agent_llm_keys = [];
  device_codes = [];
  sessions = [];
  runs = [];
  environments = [];
}

-- `clear`: every table but the grants of the scoped keys.
unfoldable pub clear : MemoryDb → MemoryDb
clear db = record empty { api_key_agents = db.api_key_agents }
