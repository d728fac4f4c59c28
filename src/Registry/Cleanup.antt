-- ===== src/Registry/Cleanup.antt =====
-- What `deleteAgent` leaves of an agent's bundles.
use skrun.Base.{
  String, ◌≡◌, refl, sym, subst, Option, none, some, List, [], ◌∷◌, string_eq, arith, Option-cases,
  inl, inr, All,
}
use skrun.JsMap
use skrun.JsMap.{JsMap, Distinct}
use skrun.JsMap.Laws.{get-delete, get-delete_self, delete_absent, delete-Distinct}
use skrun.Cache.Ttl
use skrun.Cache.Ttl.{TtlCache}
use skrun.Schema.{Agent, AgentVersion}
use skrun.Storage
use skrun.Db.{MemoryDb}
use skrun.Db.Agents
use skrun.Db.Agents.{agent_key, get_agent, get_versions}
use skrun.Registry.{throw}
use skrun.Registry.Service.{
  Digest, RegistryService, BundleCacheEntry, cache_key, agent_not_found, versions_of,
}
use skrun.Registry.Push.{pull}
use skrun.Registry.Remove
use skrun.Registry.Remove.{drop_bundle, drop_bundles}
use skrun.Registry.Numbers.{drop_bundles-db}
use skrun.Registry.Removal.{cache_delete-absent, storage_gone}

-- Neither the bundle of the version is in the store nor its extraction in the cache.
abbrev pub NoBundle : String → String → RegistryService → AgentVersion → Type 0
NoBundle namespace name s v =
    (Storage.get s.storage v.bundle_key ≡ none)
    × (JsMap.get s.bundle_cache.map (cache_key namespace name v.version) ≡ none)

abbrev pub DistinctKeys : RegistryService → Type 0
DistinctKeys s = Distinct s.storage.store × Distinct s.bundle_cache.map

cache_delete_map :
    (c : TtlCache String BundleCacheEntry) (key : String)
    → (Ttl.delete c key).0.map ≡ JsMap.delete c.map key
unfolding Ttl.delete
cache_delete_map c key = elim (Option-cases (JsMap.get c.map key)) [
  | inl e ↦ rw (Ttl.delete, e) (sym (delete_absent c.map key e))
  | inr (v, e) ↦ rw (Ttl.delete, e) refl
]

drop_bundle-DistinctKeys :
    (namespace name : String) (s : RegistryService) (v : AgentVersion)
    → DistinctKeys s
    → DistinctKeys (drop_bundle namespace name s v)
unfolding Storage.delete
drop_bundle-DistinctKeys namespace name s v (ds, dc) = (
  delete-Distinct s.storage.store v.bundle_key ds,
  rw (cache_delete_map s.bundle_cache (cache_key namespace name v.version))
      (delete-Distinct s.bundle_cache.map _ dc),
)

get-delete-none :
    {V : Type 0} (m : JsMap String V) (key other : String)
    → Distinct m
    → JsMap.get m other ≡ none
    → JsMap.get (JsMap.delete m key) other ≡ none
get-delete-none m key other d h = ground (arith, get-delete m key other d)

drop_bundle-NoBundle :
    (namespace name : String) (s : RegistryService) (v w : AgentVersion)
    → DistinctKeys s
    → NoBundle namespace name s w
    → NoBundle namespace name (drop_bundle namespace name s v) w
unfolding Storage.delete Storage.get
drop_bundle-NoBundle namespace name s v w (ds, dc) (hs, hc) = (
  get-delete-none s.storage.store v.bundle_key w.bundle_key ds hs,
  rw (cache_delete_map s.bundle_cache (cache_key namespace name v.version))
      (get-delete-none s.bundle_cache.map _ _ dc hc),
)

drop_bundles-NoBundle :
    (namespace name : String) (s : RegistryService) (vs : List AgentVersion) (w : AgentVersion)
    → DistinctKeys s
    → NoBundle namespace name s w
    → NoBundle namespace name (drop_bundles namespace name s vs) w
unfolding drop_bundles
drop_bundles-NoBundle namespace name s [] w d h = h
drop_bundles-NoBundle namespace name s (v ∷ vs) w d h =
    drop_bundles-NoBundle namespace name (drop_bundle namespace name s v) vs w
      (drop_bundle-DistinctKeys namespace name s v d)
      (drop_bundle-NoBundle namespace name s v w d h)

drop_bundles-All :
    (namespace name : String) (s : RegistryService) (vs : List AgentVersion)
    → DistinctKeys s
    → All (NoBundle namespace name (drop_bundles namespace name s vs)) vs
unfolding drop_bundles
drop_bundles-All namespace name s [] d = tt
drop_bundles-All namespace name s (v ∷ vs) d =
    let s' = drop_bundle namespace name s v in
    let d' = drop_bundle-DistinctKeys namespace name s v d in
    (
      drop_bundles-NoBundle namespace name s' vs v d' (
        storage_gone s.storage v.bundle_key d.0,
        cache_delete-absent s.bundle_cache (cache_key namespace name v.version) d.1,
      ),
      drop_bundles-All namespace name s' vs d',
    )

db_delete_agent-gone :
    (db : MemoryDb) (namespace name : String)
    → Distinct db.agents
    → get_agent (Agents.delete_agent db namespace name).0 namespace name ≡ none
unfolding Agents.delete_agent get_agent
db_delete_agent-gone db namespace name d =
    elim (Option-cases (JsMap.get db.agents (agent_key namespace name))) [
      | inl e ↦ rw (Agents.delete_agent, e) e
      | inr (a, e) ↦
          rw (Agents.delete_agent, e) (get-delete_self db.agents (agent_key namespace name) d)
    ]

pull-absent :
    (d : Digest) (s : RegistryService) (namespace name : String) (version : Option String)
    → get_agent s.db namespace name ≡ none
    → pull d s namespace name version none ≡ throw (agent_not_found namespace name)
unfolding pull
pull-absent d s namespace name version e = rw (pull, e) refl

versions_of-absent :
    (s : RegistryService) (namespace name : String)
    → get_agent s.db namespace name ≡ none
    → versions_of s.db namespace name ≡ throw (agent_not_found namespace name)
unfolding versions_of
versions_of-absent s namespace name e = rw (versions_of, e) refl

-- In tables of distinct keys, `deleteAgent` of an agent that is there leaves neither the bundle of any
-- of its versions in the store nor an extraction of one in the cache; afterwards every pull of the
-- agent, and its list of versions, is answered that there is no such agent.
pub delete_agent_cleans :
    (d : Digest) (s : RegistryService) (namespace name : String) (agent : Agent)
    → Distinct s.db.agents
    → DistinctKeys s
    → get_agent s.db namespace name ≡ some agent
    → let s' = (Remove.delete_agent s namespace name).0 in
      All (NoBundle namespace name s') (get_versions s.db agent.id)
      × ((version : Option String)
          → pull d s' namespace name version none ≡ throw (agent_not_found namespace name))
      × (versions_of s'.db namespace name ≡ throw (agent_not_found namespace name))
unfolding Remove.delete_agent
delete_agent_cleans d s namespace name agent agents keys here =
    let dropped = drop_bundles namespace name s (get_versions s.db agent.id) in
    let same : dropped.db ≡ s.db = drop_bundles-db namespace name s (get_versions s.db agent.id) in
    let s' : RegistryService = record dropped {
      db = (Agents.delete_agent dropped.db namespace name).0;
    } in
    let gone : get_agent s'.db namespace name ≡ none =
      subst
        (λ (db : MemoryDb).
          get_agent (Agents.delete_agent db namespace name).0 namespace name ≡ none)
        (sym same) (db_delete_agent-gone s.db namespace name agents) in
    rw (Remove.delete_agent, here)
      (
        drop_bundles-All namespace name s (get_versions s.db agent.id) keys,
        λ version. pull-absent d s' namespace name version gone,
        versions_of-absent s' namespace name gone,
      )
