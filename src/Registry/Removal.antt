-- ===== src/Registry/Removal.antt =====
-- What the removals of the registry take away, and what they keep.
use skrun.Base.{
  ◌≤◌, ◌≡◌, refl, String, not, Option, none, some, ◌==◌, string_eq, if◌then◌else◌, arith,
  Option-cases, Bool-cases, inl, inr, filter, find, length, leb, ==_refl, ◌∙◌,
}
use skrun.JsMap
use skrun.JsMap.{JsMap, Distinct}
use skrun.JsMap.Laws.{get-delete_self, get-set_self}
use skrun.Cache.Ttl
use skrun.Cache.Ttl.{TtlCache}
use skrun.Schema.{Agent, AgentVersion}
use skrun.Storage
use skrun.Storage.{MemoryStorage}
use skrun.Db.{MemoryDb}
use skrun.Db.Agents
use skrun.Db.Agents.{get_agent, is_version, get_versions, get_version_by_number}
use skrun.Db.Agents.Lookup.{delete_version_lem}
use skrun.Registry.{ok}
use skrun.Registry.Service.{RegistryService, cache_key, BundleCacheEntry}
use skrun.Registry.Remove
use skrun.Registry.Remove.{
  drop_bundles, drop_bundle, without_version, delete_target, delete_version_of,
}
use skrun.Registry.Numbers.{AllNumbered, length-filter_number, rows-Numbered}

pub cache_delete-absent :
    (c : TtlCache String BundleCacheEntry) (key : String)
    → Distinct c.map
    → JsMap.get (Ttl.delete c key).0.map key ≡ none
unfolding Ttl.delete
cache_delete-absent c key d = elim (Option-cases (JsMap.get c.map key)) [
  | inl e ↦ rw (Ttl.delete, e) e
  | inr (v, e) ↦ rw (Ttl.delete, e) (get-delete_self c.map key d)
]

-- The versions that are left.
versions_after :
    (db : MemoryDb) (id version : String)
    → get_versions (Agents.delete_version db id version) id
      ≡ filter (λ v. not (is_version version v)) (get_versions db id)
unfolding Agents.delete_version get_versions
versions_after db id version = elim (Option-cases (JsMap.get db.versions id)) [
  | inl e ↦ rw (Agents.delete_version, e) (rw e refl)
  | inr (vs, e) ↦
      rw
        (
          Agents.delete_version,
          e,
          get-set_self db.versions id (filter (λ v. not (is_version version v)) vs),
        )
        refl
]

agent_kept :
    (db : MemoryDb) (namespace name version : String) (a : Agent)
    → get_agent db namespace name ≡ some a
    → get_agent (Agents.delete_version db a.id version) namespace name ≡ some a
unfolding Agents.delete_version get_agent
agent_kept db namespace name version a here = elim (Option-cases (JsMap.get db.versions a.id)) [
  | inl e ↦ rw (Agents.delete_version, e) here
  | inr (vs, e) ↦ rw (Agents.delete_version, e) here
]

number_gone :
    (db : MemoryDb) (id version other : String)
    → get_version_by_number (Agents.delete_version db id version) id other
      ≡ (if version == other then none else get_version_by_number db id other)
number_gone db id version other = delete_version_lem db id version id other ∙ rw (==_refl id) refl

pub storage_gone :
    (storage : MemoryStorage) (key : String)
    → Distinct storage.store
    → Storage.get (Storage.delete storage key) key ≡ none
unfolding Storage.get Storage.delete
storage_gone storage key d = get-delete_self storage.store key d

-- What `deleteVersion` has found when it does not throw.
record Found (s : RegistryService) (namespace name version : String) : Type 0 where
  agent : Agent
  target : AgentVersion
  here : get_agent s.db namespace name ≡ some agent
  several : 2 ≤ length (get_versions s.db agent.id)
  found : get_version_by_number s.db agent.id version ≡ some target
  wrote :
      (Remove.delete_version s namespace name version).0
      ≡ without_version s namespace name version agent target

delete_target_ok :
    (s : RegistryService) (namespace name version : String) (a : Agent) (o : Option AgentVersion)
    → (delete_target s namespace name version a o).1 ≡ ok tt
    → (v : AgentVersion) × (o ≡ some v)
      × ((delete_target s namespace name version a o).0
          ≡ without_version s namespace name version a v)
unfolding delete_target
delete_target_ok s namespace name version a none done = cc
delete_target_ok s namespace name version a (some v) done = (v, refl, refl)

delete_version_of-Found :
    (s : RegistryService) (namespace name version : String) (a : Agent)
    → (delete_version_of s namespace name version (some a)).1 ≡ ok tt
    → (2 ≤ length (get_versions s.db a.id))
      × ((delete_target s namespace name version a
            (find (is_version version) (get_versions s.db a.id))).1
          ≡ ok tt)
      × ((delete_version_of s namespace name version (some a)).0
          ≡ (delete_target s namespace name version a
              (find (is_version version) (get_versions s.db a.id))).0)
unfolding delete_version_of
delete_version_of-Found s namespace name version a done =
    elim (Bool-cases (leb (length (get_versions s.db a.id)) 1)) [
      | inl few ↦ cc (rw (delete_version_of, few) at done)
      | inr many ↦ (
        ground (arith, many),
        rw (delete_version_of, many) at done,
        rw (delete_version_of, many) refl,
      )
    ]

delete_version-Found :
    (s : RegistryService) (namespace name version : String)
    → (Remove.delete_version s namespace name version).1 ≡ ok tt
    → Found s namespace name version
unfolding Remove.delete_version get_version_by_number
delete_version-Found s namespace name version done =
    elim (Option-cases (get_agent s.db namespace name)) [
      | inl e ↦ cc (rw (Remove.delete_version, e, delete_version_of) at done)
      | inr (a, e) ↦
          let (several, done', step) =
            delete_version_of-Found s namespace name version a
              (rw (Remove.delete_version, e) at done) in
          let (v, found, wrote) =
            delete_target_ok s namespace name version a
              (find (is_version version) (get_versions s.db a.id)) done' in
          record {
            agent = a;
            target = v;
            here = e;
            several = several;
            found = found;
            wrote = rw (Remove.delete_version, e) (step ∙ wrote);
          }
    ]

kept_one :
    (db : MemoryDb) (id version : String)
    → AllNumbered db
    → 2 ≤ length (get_versions db id)
    → 1 ≤ length (get_versions (Agents.delete_version db id version) id)
unfolding get_versions
kept_one db id version numbered several = rw (versions_after db id version) (
    omega (
      arith,
      several,
      length-filter_number version (get_versions db id) (rows-Numbered db id numbered),
    ))

-- `deleteVersion` that does not throw, of an agent whose versions have distinct numbers: the agent had
-- the version, and keeps one version at least, among them every one of another number. The number has
-- no row, its bundle is not in the store, and the extracted bundle is not in the cache.
pub delete_version_ok :
    (s : RegistryService) (namespace name version : String)
    → AllNumbered s.db
    → Distinct s.storage.store
    → Distinct s.bundle_cache.map
    → (Remove.delete_version s namespace name version).1 ≡ ok tt
    → let s' = (Remove.delete_version s namespace name version).0 in
      (a : Agent) × (v : AgentVersion) × (get_agent s'.db namespace name ≡ some a)
      × (get_version_by_number s.db a.id version ≡ some v)
      × (1 ≤ length (get_versions s'.db a.id))
      × ((other : String)
          → get_version_by_number s'.db a.id other
            ≡ (if version == other then none else get_version_by_number s.db a.id other))
      × (Storage.get s'.storage v.bundle_key ≡ none)
      × (JsMap.get s'.bundle_cache.map (cache_key namespace name version) ≡ none)
delete_version_ok s namespace name version numbered store cache done =
    let f = delete_version-Found s namespace name version done in
    rw f.wrote (
      f.agent,
      f.target,
      agent_kept s.db namespace name version f.agent f.here,
      f.found,
      kept_one s.db f.agent.id version numbered f.several,
      λ other. number_gone s.db f.agent.id version other,
      storage_gone s.storage f.target.bundle_key store,
      cache_delete-absent s.bundle_cache (cache_key namespace name version) cache,
    )
