-- ===== src/Examples/Registry.antt =====
-- The registry's theorems at a service with one pushed agent.
use skrun.Base.{
  zero, suc, ◌≡◌, ◌≤◌, refl, String, false, none, some, [], ◌∷◌, ◌==◌, string_eq, string_discrete,
  if◌then◌else◌, length, map, suc, ℕ_discrete,
}
use skrun.JsMap
use skrun.JsMap.{values}
use skrun.Cache.Ttl
use skrun.Schema.{Agent, AgentVersion}
use skrun.Storage
use skrun.Storage.{Buffer, MemoryStorage}
use skrun.Db.Agents.{
  get_agent, get_versions, get_version_by_number, create_agent, create_version, touch_agent,
}
use skrun.Registry.{ok, throw}
use skrun.Registry.Service.{
  Digest, RegistryService, agent_not_found, build_metadata, same_bytes, AgentMetadata, bundle_key,
}
use skrun.Registry.Service as Service
use skrun.Registry.Push.{PushRequest, push, get_or_create, pull, resolve}
use skrun.Registry.RoundTrip.{pull-push, pull_tampered}
use skrun.Registry.Remove
use skrun.Registry.Remove.{delete_target, delete_version_of}
use skrun.Registry.Removal.{delete_version_ok}
use skrun.Registry.Numbers.{
  AllNumbered, push_call, delete_version_call, serve_calls, serve_calls-AllNumbered,
}
use skrun.Registry.Cleanup.{delete_agent_cleans}
use skrun.Registry.Metadata.{list_agrees}
use skrun.Examples.{bot, users_db}

abbrev sha : Buffer → Buffer
sha [] = 0 ∷ []
sha (x ∷ xs) = 1 ∷ []

abbrev hex : Buffer → String
hex [] = ""
hex (zero ∷ xs) = "00"
hex (suc n ∷ xs) = "01"

abbrev unhex : String → Buffer
unhex s = if s == "00" then 0 ∷ [] else 1 ∷ []

pub unhex-hex : (b : Buffer) → unhex (hex (sha b)) ≡ sha b
unfolding string_discrete
unhex-hex [] = refl
unhex-hex (x ∷ xs) = refl

abbrev pub digest : Digest
digest = record { sha256 = sha; to_hex = hex; from_hex = unhex; from_hex-to_hex = unhex-hex }

abbrev pub blank : RegistryService
blank = record {
  db = users_db;
  storage = record { store = [] };
  bundle_cache = Ttl.create 600000 50;
}

abbrev request : PushRequest
request = record {
  namespace = "ada";
  name = "bot";
  version = "1.0.0";
  bundle = 7 ∷ 8 ∷ [];
  user_id = "u1";
  notes = none;
  config_snapshot = none;
  now = 5;
  agent_uuid = "a1";
  version_uuid = "v1";
}

pull-push_example :
    pull digest (push digest blank request).0 "ada" "bot" none none
    ≡ ok (record { buffer = 7 ∷ 8 ∷ []; version = "1.0.0"; verified = false; sha256 = some "01" })
unfolding push get_or_create JsMap.get get_agent string_discrete get_version_by_number
    build_metadata create_agent create_version touch_agent JsMap.set
pull-push_example = (pull-push digest blank request refl).1

-- A store in which the object was overwritten.
abbrev tampered : MemoryStorage
tampered = record { store = ("ada/bot/1.0.0.agent", 9 ∷ []) ∷ [] }

-- The hash of the fixture does not tell the two apart, so it is served.
pull_tampered_example : sha (9 ∷ []) ≡ sha (7 ∷ 8 ∷ [])
unfolding push get_or_create JsMap.get get_agent string_discrete get_version_by_number
    build_metadata create_agent create_version touch_agent JsMap.set pull resolve same_bytes
    Storage.get ℕ_discrete
pull_tampered_example =
    pull_tampered digest blank request refl tampered
      {p = record { buffer = 9 ∷ []; version = "1.0.0"; verified = false; sha256 = some "01" }} refl

abbrev next : PushRequest
next = record request { version = "2.0.0"; version_uuid = "v2" }

abbrev release : String → String → AgentVersion
release id number = record {
  id = id;
  agent_id = "a1";
  version = number;
  size = 2;
  bundle_key = bundle_key "ada" "bot" number;
  bundle_sha256 = some "01";
  config_snapshot = none;
  notes = none;
  pushed_at = 5;
  verified = false;
}

-- Two versions, one of them extracted.
abbrev pub two : RegistryService
two = record {
  db = record users_db {
    agents = ("ada/bot", bot) ∷ [];
    versions = ("a1", release "v1" "1.0.0" ∷ release "v2" "2.0.0" ∷ []) ∷ [];
  };
  storage = record {
    store = ("ada/bot/1.0.0.agent", 7 ∷ 8 ∷ []) ∷ ("ada/bot/2.0.0.agent", 9 ∷ []) ∷ [];
  };
  bundle_cache = record (Ttl.create {K = String} 600000 50) {
    map =
        (
          "ada/bot/1.0.0",
          record { value = record { dir = "/tmp/skrun-agent-1"; files = "" }; timestamp = 5 },
        )
        ∷ [];
  };
}

serve_calls-AllNumbered_example :
    AllNumbered
      (serve_calls digest blank
        (push_call request ∷ push_call next ∷ delete_version_call "ada" "bot" "1.0.0" ∷ [])).db
serve_calls-AllNumbered_example =
    serve_calls-AllNumbered digest blank
      (push_call request ∷ push_call next ∷ delete_version_call "ada" "bot" "1.0.0" ∷ []) tt

delete_version_ok_example :
    let s' = (Remove.delete_version two "ada" "bot" "1.0.0").0 in
    (a : Agent) × (v : AgentVersion) × (get_agent s'.db "ada" "bot" ≡ some a)
    × (get_version_by_number two.db a.id "1.0.0" ≡ some v)
    × (1 ≤ length (get_versions s'.db a.id))
    × ((other : String)
        → get_version_by_number s'.db a.id other
          ≡ (if "1.0.0" == other then none else get_version_by_number two.db a.id other))
    × (Storage.get s'.storage v.bundle_key ≡ none)
    × (JsMap.get s'.bundle_cache.map "ada/bot/1.0.0" ≡ none)
unfolding Remove.delete_version JsMap.get string_discrete get_agent delete_version_of delete_target
    get_versions
delete_version_ok_example =
    delete_version_ok two "ada" "bot" "1.0.0" ((refl, (refl, tt)), tt) (refl, (refl, tt)) (refl, tt)
      refl

delete_agent_cleans_example :
    pull digest (Remove.delete_agent two "ada" "bot").0 "ada" "bot" none none
    ≡ throw (agent_not_found "ada" "bot")
unfolding JsMap.get string_discrete get_agent
delete_agent_cleans_example =
    (delete_agent_cleans digest two "ada" "bot" bot (refl, tt) ((refl, (refl, tt)), (refl, tt))
        refl).1
      none

list_agrees_example :
    map (λ (m : AgentMetadata). ok m) (Service.list two 1 20 none).0
    ≡ build_metadata two.db "ada" "bot" ∷ []
unfolding JsMap.get string_discrete get_agent
list_agrees_example = list_agrees two 1 20 none ((cc, refl), tt)
