-- ===== src/Registry/Remove.antt =====
-- registry.ts, `deleteAgent`, `deleteVersion` and `setVersionVerified`.
use skrun.Base.{
  String, Bool, none, some, List, [], ◌∷◌, string_eq, if◌then◌else◌, template, length, leb, find,
  Option,
}
use skrun.Cache.Ttl
use skrun.Cache.Ttl.{TtlCache}
use skrun.Schema.{Agent, AgentVersion}
use skrun.Storage
use skrun.Db.Agents
use skrun.Db.Agents.{get_agent, get_versions, is_version}
use skrun.Registry.{Outcome, ok, throw, RegistryError}
use skrun.Registry.Service.{
  RegistryService, AgentVersionInfo, agent_not_found, version_not_found, cache_key, version_info,
}

-- The bundle of a version is taken out of the cache and out of the store.
abbrev pub drop_bundle : String → String → RegistryService → AgentVersion → RegistryService
drop_bundle namespace name s v = record s {
  bundle_cache = (Ttl.delete s.bundle_cache (cache_key namespace name v.version)).0;
  storage = Storage.delete s.storage v.bundle_key;
}

-- The loop of `deleteAgent`.
unfoldable pub drop_bundles :
    String → String → RegistryService → List AgentVersion → RegistryService
drop_bundles namespace name s [] = s
drop_bundles namespace name s (v ∷ vs) =
    drop_bundles namespace name (drop_bundle namespace name s v) vs

unfoldable pub delete_agent :
    RegistryService → String → String → RegistryService × Outcome (Unit {0})
unfolding drop_bundles
delete_agent s namespace name = elim (get_agent s.db namespace name) [
  | none ↦ (s, throw (agent_not_found namespace name))
  | some agent ↦
      let s' = drop_bundles namespace name s (get_versions s.db agent.id) in
      (record s' { db = (Agents.delete_agent s'.db namespace name).0 }, ok tt)
]

abbrev pub last_version : String → String → RegistryError
last_version namespace name = record {
  code = "LAST_VERSION";
  message = template (
      "Cannot delete the last version of " ∷ namespace ∷ "/" ∷ name
      ∷ ". Use DELETE /api/agents/:namespace/:name to remove the agent entirely." ∷ []);
  status = 409;
}

-- Steps 3 to 5 of `deleteVersion`.
abbrev pub without_version :
    RegistryService → String → String → String → Agent → AgentVersion → RegistryService
without_version s namespace name version agent target = record s {
  bundle_cache = (Ttl.delete s.bundle_cache (cache_key namespace name version)).0;
  storage = Storage.delete s.storage target.bundle_key;
  db = Agents.delete_version s.db agent.id version;
}

-- Step 2, on the version that `find` gave.
unfoldable pub delete_target :
    RegistryService
    → String
    → String
    → String
    → Agent
    → Option AgentVersion
    → RegistryService × Outcome (Unit {0})
delete_target s namespace name version agent none =
    (s, throw (version_not_found namespace name version))
delete_target s namespace name version agent (some target) =
    (without_version s namespace name version agent target, ok tt)

unfoldable pub delete_version_of :
    RegistryService → String → String → String → Option Agent → RegistryService × Outcome (Unit {0})
unfolding delete_target
delete_version_of s namespace name version none = (s, throw (agent_not_found namespace name))
delete_version_of s namespace name version (some agent) =
    let versions = get_versions s.db agent.id in
    if leb (length versions) 1
    then (s, throw (last_version namespace name))
    else delete_target s namespace name version agent (find (is_version version) versions)

unfoldable pub delete_version :
    RegistryService → String → String → String → RegistryService × Outcome (Unit {0})
unfolding delete_version_of
delete_version s namespace name version =
    delete_version_of s namespace name version (get_agent s.db namespace name)

unfoldable pub set_version_verified :
    RegistryService → String → String → String → Bool → RegistryService × Outcome AgentVersionInfo
set_version_verified s namespace name version verified = elim (get_agent s.db namespace name) [
  | none ↦ (s, throw (agent_not_found namespace name))
  | some agent ↦
      let (db, updated) = Agents.set_version_verified s.db namespace name version verified in
      elim updated [
        | none ↦ (record s { db = db }, throw (version_not_found namespace name version))
        | some v ↦ (record s { db = db }, ok (version_info v))
      ]
]
