-- ===== src/Registry/Pushed.antt =====
-- The registry after a push that does not throw.
use skrun.Base.{
  ℕ, ◌≡◌, refl, ap, ◌∙◌, String, true, false, Option, none, some, [], ◌∷◌, ◌==◌, ==_refl, string_eq,
  nat_eq, ◌&&◌, arith, Option-cases, inl, inr, length,
}
use mathlib.Core.Option
use skrun.JsMap
use skrun.JsMap.{JsMap}
use skrun.JsMap.Laws.{get-set_self}
use skrun.Schema.{Agent, AgentVersion}
use skrun.Storage
use skrun.Storage.{Buffer, MemoryStorage}
use skrun.Db.{MemoryDb}
use skrun.Db.Agents.{
  get_agent, create_agent, get_latest_version, get_version_by_number, touch_agent, agent_key,
  create_version,
}
use skrun.Db.Agents.Lookup.{create_version_lem}
use skrun.Registry.{ok}
use skrun.Registry.Service.{Digest, RegistryService, AgentMetadata, bundle_key}
use skrun.Registry.Push.{PushRequest, push, get_or_create, stored, new_version}

-- The identifier of the agent under a key.
abbrev pub id_at : JsMap String Agent → String → Option String
id_at m key = Option.map (λ (a : Agent). a.id) (JsMap.get m key)

pub id_at-touch :
    (agent_id : String) (now : ℕ) (m : JsMap String Agent) (key : String)
    → id_at (touch_agent agent_id now m) key ≡ id_at m key
unfolding touch_agent JsMap.get
id_at-touch agent_id now [] key = refl
id_at-touch agent_id now ((j, a) ∷ m) key = ground (arith, id_at-touch agent_id now m key)

pub get_or_create_lem :
    (db : MemoryDb) (r : PushRequest)
    → get_agent (get_or_create db r).0 r.namespace r.name ≡ some (get_or_create db r).1
unfolding get_or_create create_agent get_agent
get_or_create_lem db r = elim (Option-cases (get_agent db r.namespace r.name)) [
  | inl e ↦
      ground
        (arith, e, get-set_self db.agents (agent_key r.namespace r.name) (get_or_create db r).1)
  | inr (a, e) ↦ ground (arith, e)
]

-- The row that a push writes for an agent.
abbrev pub version_row : Digest → String → PushRequest → AgentVersion
version_row d agent_id r = record {
  id = r.version_uuid;
  agent_id = agent_id;
  version = r.version;
  size = length r.bundle;
  bundle_key = bundle_key r.namespace r.name r.version;
  bundle_sha256 = some (d.to_hex (d.sha256 r.bundle));
  config_snapshot = r.config_snapshot;
  notes = r.notes;
  pushed_at = r.now;
  verified = false;
}

-- A push that does not throw has met no row of the number, and has written.
pub push_wrote :
    (d : Digest) (s : RegistryService) (r : PushRequest) {m : AgentMetadata}
    → (push d s r).1 ≡ ok m
    → (get_version_by_number (get_or_create s.db r).0 (get_or_create s.db r).1.id r.version ≡ none)
      × ((push d s r).0 ≡ stored d s (get_or_create s.db r).0 (get_or_create s.db r).1 r)
unfolding push
push_wrote d s r done =
    elim (Option-cases
      (get_version_by_number (get_or_create s.db r).0 (get_or_create s.db r).1.id r.version)) [
        | inl e ↦ (e, rw (push, e) refl)
        | inr (v, e) ↦ cc (rw (push, e) at done)
      ]

create_version_row :
    (db : MemoryDb) (d : Digest) (id : String) (r : PushRequest)
    → (create_version db id (new_version d r) r.now r.version_uuid).1 ≡ version_row d id r
unfolding create_version
create_version_row db d id r = refl

-- The agent that is there after a version is created, with its identifier.
agent_after :
    (db : MemoryDb) (d : Digest) (r : PushRequest) (agent : Agent)
    → get_agent db r.namespace r.name ≡ some agent
    → (a : Agent) × (get_agent
          (create_version db agent.id (new_version d r) r.now r.version_uuid).0
          r.namespace
          r.name
        ≡ some a)
      × (a.id ≡ agent.id)
unfolding create_version get_agent
agent_after db d r agent here =
    elim (Option-cases
      (JsMap.get (touch_agent agent.id r.now db.agents) (agent_key r.namespace r.name))) [
        | inl e ↦ absurd (cc (rw (e, here) at same))
        | inr (a, e) ↦ (a, e, cc (rw (e, here) at same))
      ]
  where
    same :
        id_at (touch_agent agent.id r.now db.agents) (agent_key r.namespace r.name)
        ≡ id_at db.agents (agent_key r.namespace r.name)
    same = id_at-touch agent.id r.now db.agents (agent_key r.namespace r.name)

-- The agent is there, and its latest row, and the row of the number, is the one pushed.
abbrev pub HasPushed : Digest → RegistryService → PushRequest → Agent → Type 0
HasPushed d s r a =
    (get_agent s.db r.namespace r.name ≡ some a)
    × (get_version_by_number s.db a.id r.version ≡ some (version_row d a.id r))
    × (get_latest_version s.db a.id ≡ some (version_row d a.id r))

stored-HasPushed :
    (d : Digest) (s : RegistryService) (db : MemoryDb) (r : PushRequest) (agent : Agent)
    → get_agent db r.namespace r.name ≡ some agent
    → get_version_by_number db agent.id r.version ≡ none
    → (a : Agent) × HasPushed d (stored d s db agent r) r a
stored-HasPushed d s db r agent here absent =
    let (a, there, same) = agent_after db d r agent here in
    let (latest, _, found) =
      create_version_lem db agent.id (new_version d r) r.now r.version_uuid absent agent.id
        r.version in
    let row = create_version_row db d agent.id r in
    let own : (agent.id == agent.id && r.version == r.version) ≡ true =
      rw (==_refl agent.id, ==_refl r.version) refl in
    (a, (there, rw same (found ∙ rw (own, row) refl), rw same (latest ∙ ap some row)))

pub push-HasPushed :
    (d : Digest) (s : RegistryService) (r : PushRequest) {m : AgentMetadata}
    → (push d s r).1 ≡ ok m
    → (a : Agent) × HasPushed d (push d s r).0 r a
push-HasPushed d s r done =
    let (absent, wrote) = push_wrote d s r done in
    rw wrote (
      stored-HasPushed d s (get_or_create s.db r).0 r (get_or_create s.db r).1
        (get_or_create_lem s.db r) absent)

pub push-storage :
    (d : Digest) (s : RegistryService) (r : PushRequest) {m : AgentMetadata}
    → (push d s r).1 ≡ ok m
    → Storage.get (push d s r).0.storage (bundle_key r.namespace r.name r.version) ≡ some r.bundle
unfolding Storage.get Storage.put
push-storage d s r done = rw (push_wrote d s r done).1 (get-set_self s.storage.store _ r.bundle)
