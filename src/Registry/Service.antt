-- ===== src/Registry/Service.antt =====
-- packages/api/src/services/registry.ts, `RegistryService`: the agents' versions in the database, their
-- bundles in the store, and the extracted bundles in the cache (packages/api/src/cache/bundle-cache.ts).
-- A method takes the three and returns them beside its answer; what the source wrote before it threw
-- stays written. Removing an evicted directory from the disk is not part of the state.
use skrun.Base.{
  ℕ, ◌+◌, String, Bool, true, false, Option, none, some, List, [], ◌∷◌, ◌==◌, string_eq, nat_eq,
  ◌&&◌, ◌≡◌, template, length, map,
}
use skrun.Cache.Ttl.{TtlCache}
use skrun.Schema.{Agent, AgentVersion, Visibility, Run}
use skrun.Storage.{Buffer, MemoryStorage}
use skrun.Db.{MemoryDb}
use skrun.Db.Agents.{get_agent, get_versions, get_latest_version}
use skrun.Db.Listing.{list_agents, ListedAgent}
use skrun.Db.Runs.{list_runs}
use skrun.Registry.{Outcome, ok, throw, RegistryError}

-- SHA-256 and the hexadecimal text of Node's `Buffer`, of which the service needs that a digest is
-- read back from its text.
pub record Digest : Type 0 where
  pub sha256 : Buffer → Buffer
  pub to_hex : Buffer → String
  pub from_hex : String → Buffer
  pub from_hex-to_hex : (b : Buffer) → from_hex (to_hex (sha256 b)) ≡ sha256 b

pub record BundleCacheEntry : Type 0 where
  pub dir : String
  pub files : String

pub record RegistryService : Type 0 where
  pub db : MemoryDb
  pub storage : MemoryStorage
  pub bundle_cache : TtlCache String BundleCacheEntry

pub record AgentMetadata : Type 0 where
  pub name : String
  pub namespace : String
  pub description : String
  pub visibility : Visibility
  pub latest_version_verified : Bool
  pub latest_version : String
  pub versions : List String
  pub created_at : ℕ
  pub updated_at : ℕ
  pub run_count : ℕ
  pub token_count : ℕ

pub record AgentVersionInfo : Type 0 where
  pub version : String
  pub size : ℕ
  pub pushed_at : ℕ
  pub config_snapshot : Option String
  pub notes : Option String
  pub verified : Bool

-- `length === && timingSafeEqual`
unfoldable pub same_bytes : Buffer → Buffer → Bool
same_bytes [] [] = true
same_bytes [] (b ∷ bs) = false
same_bytes (a ∷ as') [] = false
same_bytes (a ∷ as') (b ∷ bs) = a == b && same_bytes as' bs

abbrev pub agent_not_found : String → String → RegistryError
agent_not_found namespace name = record {
  code = "NOT_FOUND";
  message = template ("Agent " ∷ namespace ∷ "/" ∷ name ∷ " not found" ∷ []);
  status = 404;
}

abbrev pub version_not_found : String → String → String → RegistryError
version_not_found namespace name version = record {
  code = "VERSION_NOT_FOUND";
  message = template ("Version " ∷ version ∷ " not found for " ∷ namespace ∷ "/" ∷ name ∷ []);
  status = 404;
}

abbrev pub bundle_key : String → String → String → String
bundle_key namespace name version =
    template (namespace ∷ "/" ∷ name ∷ "/" ∷ version ∷ ".agent" ∷ [])

abbrev pub cache_key : String → String → String → String
cache_key namespace name version = template (namespace ∷ "/" ∷ name ∷ "/" ∷ version ∷ [])

abbrev pub sum_tokens : List Run → ℕ
sum_tokens [] = 0
sum_tokens (r ∷ l) = r.usage_total_tokens + sum_tokens l

abbrev pub version_of : Option AgentVersion → String
version_of none = ""
version_of (some v) = v.version

abbrev pub verified_of : Option AgentVersion → Bool
verified_of none = false
verified_of (some v) = v.verified

abbrev pub agent_runs : MemoryDb → String → List Run
agent_runs db id =
    list_runs db (record { agent_id = some id; user_id = none; status = none; limit = none })

abbrev pub metadata_of : MemoryDb → Agent → AgentMetadata
metadata_of db agent =
    let latest = get_latest_version db agent.id in
    let runs = agent_runs db agent.id in
    record {
      name = agent.name;
      namespace = agent.namespace;
      description = agent.description;
      visibility = agent.visibility;
      latest_version_verified = verified_of latest;
      latest_version = version_of latest;
      versions = map (λ (v : AgentVersion). v.version) (get_versions db agent.id);
      created_at = agent.created_at;
      updated_at = agent.updated_at;
      run_count = length runs;
      token_count = sum_tokens runs;
    }

unfoldable pub build_metadata : MemoryDb → String → String → Outcome AgentMetadata
build_metadata db namespace name = elim (get_agent db namespace name) [
  | none ↦ throw (agent_not_found namespace name)
  | some agent ↦ ok (metadata_of db agent)
]

-- An entry of `list`: the totals come from the page's rows.
abbrev pub listing_of : MemoryDb → ListedAgent → AgentMetadata
listing_of db a =
    let latest = get_latest_version db a.agent.id in
    record {
      name = a.agent.name;
      namespace = a.agent.namespace;
      description = a.agent.description;
      visibility = a.agent.visibility;
      latest_version_verified = verified_of latest;
      latest_version = version_of latest;
      versions = map (λ (v : AgentVersion). v.version) (get_versions db a.agent.id);
      created_at = a.agent.created_at;
      updated_at = a.agent.updated_at;
      run_count = a.run_count;
      token_count = a.token_count;
    }

unfoldable pub list : RegistryService → ℕ → ℕ → Option String → List AgentMetadata × ℕ
list s page limit user_id =
    let (agents, total) = list_agents s.db page limit user_id in
    (map (listing_of s.db) agents, total)

abbrev pub version_info : AgentVersion → AgentVersionInfo
version_info v = record {
  version = v.version;
  size = v.size;
  pushed_at = v.pushed_at;
  config_snapshot = v.config_snapshot;
  notes = v.notes;
  verified = v.verified;
}

unfoldable pub versions_of : MemoryDb → String → String → Outcome (List AgentVersionInfo)
versions_of db namespace name = elim (get_agent db namespace name) [
  | none ↦ throw (agent_not_found namespace name)
  | some agent ↦ ok (map version_info (get_versions db agent.id))
]
