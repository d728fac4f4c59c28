-- ===== src/Db/LlmKeys/Rows.antt =====
-- One row for each provider of an agent.
use skrun.Base.{
  ℕ, String, ◌&&◌, Option, none, some, List, [], ◌∷◌, ◌++◌, ◌==◌, string_eq, find, get_or,
  if◌then◌else◌, ◌≡◌, refl, arith, inl, inr, Option-cases,
}
use skrun.JsMap
use skrun.JsMap.{JsMap, Distinct}
use skrun.JsMap.Laws.{get-set, get-delete}
use skrun.Schema.{AgentLlmKeyRow}
use skrun.Db.{MemoryDb}
use skrun.Db.LlmKeys.{is_for, without, store_rows, rows_of, set_agent_llm_key, delete_agent_llm_key}

-- The key that an agent has for a provider.
abbrev pub key_for : MemoryDb → String → String → Option AgentLlmKeyRow
key_for db agent_id provider = find (is_for provider) (rows_of db agent_id)

-- No provider twice.
abbrev pub OnePerProvider : List AgentLlmKeyRow → Type 0
OnePerProvider [] = Unit
OnePerProvider (r ∷ rs) = (find (is_for r.provider) rs ≡ none) × OnePerProvider rs

find-without :
    (provider other : String) (rows : List AgentLlmKeyRow)
    → find (is_for other) (without provider rows)
      ≡ (if provider == other then none else find (is_for other) rows)
find-without provider other [] = ground arith
find-without provider other (r ∷ rows) = ground (arith, find-without provider other rows)

find-snoc :
    (other : String) (rows : List AgentLlmKeyRow) (r : AgentLlmKeyRow)
    → find (is_for other) (rows ++ r ∷ []) ≡ elim (find (is_for other) rows) [
      | none ↦ if is_for other r then some r else none
      | some q ↦ some q
    ]
find-snoc other [] r = refl
find-snoc other (q ∷ rows) r = ground (arith, find-snoc other rows r)

without-OnePerProvider :
    (provider : String) (rows : List AgentLlmKeyRow)
    → OnePerProvider rows
    → OnePerProvider (without provider rows)
without-OnePerProvider provider [] o = tt
without-OnePerProvider provider (r ∷ rows) (new, o) =
    ground (arith, without-OnePerProvider provider rows o, find-without provider r.provider rows)

snoc-OnePerProvider :
    (rows : List AgentLlmKeyRow) (r : AgentLlmKeyRow)
    → find (is_for r.provider) rows ≡ none
    → OnePerProvider rows
    → OnePerProvider (rows ++ r ∷ [])
snoc-OnePerProvider [] r h o = (refl, tt)
snoc-OnePerProvider (q ∷ rows) r h (new, o) =
    ground (arith, snoc-OnePerProvider rows r, find-snoc q.provider rows r)

-- Attaching a key replaces the agent's key for that provider and no other: afterwards the provider
-- has the new ciphertext, every other provider and every other agent has what it had, and no
-- provider of the agent has two rows if none had before.
pub set_agent_llm_key_lem :
    (db : MemoryDb) (agent_id provider ciphertext last4 : String) (key_version now : ℕ)
    → OnePerProvider (rows_of db agent_id)
    → (other_agent other : String)
    → let db' = set_agent_llm_key db agent_id provider ciphertext last4 key_version now in
      OnePerProvider (rows_of db' agent_id)
      × (key_for db' other_agent other ≡ (
          if agent_id == other_agent && provider == other
          then some (record {
            agent_id = agent_id;
            provider = provider;
            ciphertext = ciphertext;
            last4 = last4;
            key_version = key_version;
            updated_at = now;
          })
          else key_for db other_agent other))
unfolding set_agent_llm_key rows_of
set_agent_llm_key_lem db agent_id provider ciphertext last4 key_version now o other_agent other = (
  ground (
    arith,
    get-set db.agent_llm_keys agent_id agent_id (kept ++ row ∷ []),
    snoc-OnePerProvider kept row (ground (arith, find-without provider provider before))
        (without-OnePerProvider provider before o),
  ),
  ground (
    arith,
    get-set db.agent_llm_keys agent_id other_agent (kept ++ row ∷ []),
    find-snoc other kept row,
    find-without provider other before,
  ),
)
  where
    before : List AgentLlmKeyRow
    before = get_or (JsMap.get db.agent_llm_keys agent_id) []

    kept : List AgentLlmKeyRow
    kept = without provider before

    row : AgentLlmKeyRow
    row = record {
      agent_id = agent_id;
      provider = provider;
      ciphertext = ciphertext;
      last4 = last4;
      key_version = key_version;
      updated_at = now;
    }

get-store_rows :
    (m : JsMap String (List AgentLlmKeyRow)) (agent_id other : String) (rows : List AgentLlmKeyRow)
    → Distinct m
    → get_or (JsMap.get (store_rows m agent_id rows) other) []
      ≡ (if agent_id == other then rows else get_or (JsMap.get m other) [])
get-store_rows m agent_id other [] d = ground (arith, get-delete m agent_id other d)
get-store_rows m agent_id other (r ∷ rows) d = ground (arith, get-set m agent_id other (r ∷ rows))

-- Removing a key takes that provider's row of that agent and nothing else.
pub delete_agent_llm_key_lem :
    (db : MemoryDb) (agent_id provider : String)
    → Distinct db.agent_llm_keys
    → (other_agent other : String)
    → key_for (delete_agent_llm_key db agent_id provider) other_agent other ≡ (
        if agent_id == other_agent && provider == other then none else key_for db other_agent other)
unfolding delete_agent_llm_key rows_of
delete_agent_llm_key_lem db agent_id provider d other_agent other =
    elim (Option-cases (JsMap.get db.agent_llm_keys agent_id)) [
      | inl e ↦ rw (e, delete_agent_llm_key) (ground arith)
      | inr (rows, e) ↦
          rw (e, delete_agent_llm_key)
            (ground (
              arith,
              get-store_rows db.agent_llm_keys agent_id other_agent (without provider rows) d,
              find-without provider other rows,
            ))
    ]
