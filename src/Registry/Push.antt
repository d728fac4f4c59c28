-- ===== src/Registry/Push.antt =====
-- registry.ts, `push` and `pull`.
use skrun.Base.{
  ℕ, String, Bool, true, Option, none, some, [], ◌∷◌, ◌==◌, string_eq, if◌then◌else◌, template,
  length,
}
use skrun.Schema.{Agent, AgentVersion}
use skrun.Storage
use skrun.Storage.{Buffer, MemoryStorage}
use skrun.Db.{MemoryDb}
use skrun.Db.Agents.{
  NewAgent, get_agent, create_agent, get_latest_version, get_version_by_number, NewVersion,
  create_version,
}
use skrun.Registry.{Outcome, ok, throw, RegistryError}
use skrun.Registry.Service.{
  Digest, RegistryService, AgentMetadata, agent_not_found, version_not_found, bundle_key,
  same_bytes, build_metadata,
}

-- What the caller passes, with the configuration that `extractFiles` and `parseAgentYaml` read out of
-- the bundle when it has one, the clock, and the identifiers that the rows would get.
pub record PushRequest : Type 0 where
  pub namespace : String
  pub name : String
  pub version : String
  pub bundle : Buffer
  pub user_id : String
  pub notes : Option String
  pub config_snapshot : Option String
  pub now : ℕ
  pub agent_uuid : String
  pub version_uuid : String

abbrev pub new_agent : PushRequest → NewAgent
new_agent r = record {
  name = r.name;
  namespace = r.namespace;
  description = "";
  owner_id = r.user_id;
  visibility = none;
}

-- The agent of the push, created if it is not there.
unfoldable pub get_or_create : MemoryDb → PushRequest → MemoryDb × Agent
get_or_create db r = elim (get_agent db r.namespace r.name) [
  | none ↦ create_agent db (new_agent r) r.now r.agent_uuid
  | some agent ↦ (db, agent)
]

abbrev pub version_exists : PushRequest → RegistryError
version_exists r = record {
  code = "VERSION_EXISTS";
  message = template (
      "Version " ∷ r.version ∷ " already exists for " ∷ r.namespace ∷ "/" ∷ r.name
      ∷ ". Bump version in agent.yaml." ∷ []);
  status = 409;
}

abbrev pub new_version : Digest → PushRequest → NewVersion
new_version d r = record {
  version = r.version;
  size = length r.bundle;
  bundle_key = bundle_key r.namespace r.name r.version;
  bundle_sha256 = some (d.to_hex (d.sha256 r.bundle));
  config_snapshot = r.config_snapshot;
  notes = r.notes;
}

-- The writes of a push that is not a duplicate.
abbrev pub stored : Digest → RegistryService → MemoryDb → Agent → PushRequest → RegistryService
stored d s db agent r = record s {
  db = (create_version db agent.id (new_version d r) r.now r.version_uuid).0;
  storage = Storage.put s.storage (bundle_key r.namespace r.name r.version) r.bundle;
}

unfoldable pub push :
    Digest → RegistryService → PushRequest → RegistryService × Outcome AgentMetadata
unfolding get_or_create build_metadata
push d s r =
    let (db, agent) = get_or_create s.db r in
    elim (get_version_by_number db agent.id r.version) [
      | some existing ↦ (record s { db = db }, throw (version_exists r))
      | none ↦ let s' = stored d s db agent r in (s', build_metadata s'.db r.namespace r.name)
    ]

pub record Pulled : Type 0 where
  pub buffer : Buffer
  pub version : String
  pub verified : Bool
  pub sha256 : Option String

-- The row that is pulled: of the number that is named, or the latest. An empty text names none.
abbrev pub latest_or_throw : MemoryDb → Agent → String → String → Outcome AgentVersion
latest_or_throw db agent namespace name = elim (get_latest_version db agent.id) [
  | none ↦ throw (record {
    code = "NO_VERSIONS";
    message = template ("No versions found for " ∷ namespace ∷ "/" ∷ name ∷ []);
    status = 404;
  })
  | some latest ↦ ok latest
]

abbrev pub number_or_throw : MemoryDb → Agent → String → String → String → Outcome AgentVersion
number_or_throw db agent namespace name version = elim (get_version_by_number db agent.id version) [
  | none ↦ throw (version_not_found namespace name version)
  | some v ↦ ok v
]

unfoldable pub resolve : MemoryDb → Agent → String → String → Option String → Outcome AgentVersion
resolve db agent namespace name none = latest_or_throw db agent namespace name
resolve db agent namespace name (some version) =
    if version == ""
    then latest_or_throw db agent namespace name
    else number_or_throw db agent namespace name version

-- A version with no checksum on record is served as it is.
abbrev pub is_intact : Digest → Buffer → Option String → Bool
is_intact d buffer none = true
is_intact d buffer (some hex) = same_bytes (d.sha256 buffer) (d.from_hex hex)

abbrev pub bundle_not_found : RegistryError
bundle_not_found = record {
  code = "BUNDLE_NOT_FOUND";
  message = "Bundle file not found in storage";
  status = 500;
}

abbrev pub integrity_failed : String → String → String → RegistryError
integrity_failed namespace name version = record {
  code = "BUNDLE_INTEGRITY_FAILED";
  message =
      template ("Bundle integrity check failed for " ∷ namespace ∷ "/" ∷ name ∷ "@" ∷ version ∷ []);
  status = 500;
}

abbrev pub serve : Digest → String → String → AgentVersion → Option Buffer → Outcome Pulled
serve d namespace name v none = throw bundle_not_found
serve d namespace name v (some buffer) =
    if is_intact d buffer v.bundle_sha256
    then ok (record {
      buffer = buffer;
      version = v.version;
      verified = v.verified;
      sha256 = v.bundle_sha256;
    })
    else throw (integrity_failed namespace name v.version)

-- The agent that the route has read already, or the one in the table: `opts?.preloadedAgent ?? db.getAgent(...)`
abbrev pub agent_of : MemoryDb → String → String → Option Agent → Option Agent
agent_of db namespace name (some agent) = some agent
agent_of db namespace name none = get_agent db namespace name

unfoldable pub pull :
    Digest → RegistryService → String → String → Option String → Option Agent → Outcome Pulled
pull d s namespace name version preloaded = elim (agent_of s.db namespace name preloaded) [
  | none ↦ throw (agent_not_found namespace name)
  | some agent ↦ elim (resolve s.db agent namespace name version) [
    | throw e ↦ throw e
    | ok v ↦ serve d namespace name v (Storage.get s.storage (bundle_key namespace name v.version))
  ]
]
