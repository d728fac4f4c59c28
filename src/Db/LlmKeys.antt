-- ===== src/Db/LlmKeys.antt =====
-- memory.ts, the LLM keys that creators attach to their agents, and the opaque agent state.
pub mod Rows
use skrun.Base.{
  ℕ, String, Bool, true, false, not, Option, none, some, List, [], ◌∷◌, ◌++◌, map, ◌==◌, string_eq,
  filter, get_or,
}
use skrun.JsMap
use skrun.JsMap.{JsMap}
use skrun.Schema.{AgentLlmKeyRow, AgentLlmKeyRecord, AgentLlmKeyInfo}
use skrun.Db.{MemoryDb}

abbrev pub is_for : String → AgentLlmKeyRow → Bool
is_for provider r = r.provider == provider

abbrev pub without : String → List AgentLlmKeyRow → List AgentLlmKeyRow
without provider = filter (λ r. not (is_for provider r))

-- The rows of an agent, none when it has no entry.
unfoldable pub rows_of : MemoryDb → String → List AgentLlmKeyRow
rows_of db agent_id = get_or (JsMap.get db.agent_llm_keys agent_id) []

abbrev pub secret : AgentLlmKeyRow → AgentLlmKeyRecord
secret r = record {
  agent_id = r.agent_id;
  provider = r.provider;
  ciphertext = r.ciphertext;
  last4 = r.last4;
  key_version = r.key_version;
}

unfoldable pub get_agent_llm_key_secrets : MemoryDb → String → List AgentLlmKeyRecord
unfolding rows_of
get_agent_llm_key_secrets db agent_id = map secret (rows_of db agent_id)

abbrev pub info : AgentLlmKeyRow → AgentLlmKeyInfo
info r = record { provider = r.provider; last4 = r.last4; updated_at = r.updated_at }

unfoldable pub list_agent_llm_keys : MemoryDb → String → List AgentLlmKeyInfo
list_agent_llm_keys db agent_id = map info (get_or (JsMap.get db.agent_llm_keys agent_id) [])

unfoldable pub set_agent_llm_key : MemoryDb → String → String → String → String → ℕ → ℕ → MemoryDb
set_agent_llm_key db agent_id provider ciphertext last4 key_version now =
    let next : List AgentLlmKeyRow =
      without provider (get_or (JsMap.get db.agent_llm_keys agent_id) []) in
    let row : AgentLlmKeyRow = record {
      agent_id = agent_id;
      provider = provider;
      ciphertext = ciphertext;
      last4 = last4;
      key_version = key_version;
      updated_at = now;
    } in
    record db { agent_llm_keys = JsMap.set db.agent_llm_keys agent_id (next ++ row ∷ []) }

-- A list that has become empty is taken out of the table.
abbrev pub store_rows :
    JsMap String (List AgentLlmKeyRow)
    → String
    → List AgentLlmKeyRow
    → JsMap String (List AgentLlmKeyRow)
store_rows m agent_id [] = JsMap.delete m agent_id
store_rows m agent_id (r ∷ rs) = JsMap.set m agent_id (r ∷ rs)

unfoldable pub delete_agent_llm_key : MemoryDb → String → String → MemoryDb
delete_agent_llm_key db agent_id provider = elim (JsMap.get db.agent_llm_keys agent_id) [
  | none ↦ db
  | some rows ↦ record db {
    agent_llm_keys = store_rows db.agent_llm_keys agent_id (without provider rows);
  }
]

unfoldable pub get_state : MemoryDb → String → Option String
get_state db agent_name = JsMap.get db.states agent_name

unfoldable pub set_state : MemoryDb → String → String → MemoryDb
set_state db agent_name state = record db { states = JsMap.set db.states agent_name state }

unfoldable pub delete_state : MemoryDb → String → MemoryDb
delete_state db agent_name = record db { states = JsMap.delete db.states agent_name }
