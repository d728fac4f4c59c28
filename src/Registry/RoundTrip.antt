-- ===== src/Registry/RoundTrip.antt =====
-- What is pulled after a push.
use skrun.Base.{
  ◌≡◌, ◌↔◌, refl, sym, ap, ◌∙◌, String, true, false, Option, none, some, [], ◌∷◌, ◌==◌, ==_iff,
  string_eq, nat_eq, arith, Bool-cases, inl, inr,
}
use skrun.Schema.{Agent, AgentVersion}
use skrun.Storage
use skrun.Storage.{Buffer, MemoryStorage}
use skrun.Db.{MemoryDb}
use skrun.Db.Agents.{get_agent, get_latest_version, get_version_by_number}
use skrun.Registry.{Outcome, ok, throw}
use skrun.Registry.Service.{Digest, RegistryService, AgentMetadata, same_bytes, bundle_key}
use skrun.Registry.Push.{
  PushRequest, push, get_or_create, pull, Pulled, resolve, serve, is_intact, version_exists,
}
use skrun.Registry.Pushed.{version_row, push-HasPushed, push-storage}

pub same_bytes_iff : (a b : Buffer) → (same_bytes a b ≡ true) ↔ (a ≡ b)
unfolding same_bytes
same_bytes_iff [] [] = (λ h. refl, λ h. refl)
same_bytes_iff [] (b ∷ bs) = (λ h. cc, λ h. cc)
same_bytes_iff (a ∷ l) [] = (λ h. cc, λ h. cc)
same_bytes_iff (a ∷ l) (b ∷ bs) = ground (arith, same_bytes_iff l bs)

-- Pulling an agent that is there serves the row that its identifier resolves to.
abbrev pub Resolves : MemoryDb → String → Option String → AgentVersion → Type 0
Resolves db id none v = get_latest_version db id ≡ some v
Resolves db id (some version) v =
    get_version_by_number db id version ≡ some v
    × ((version ≡ "") → get_latest_version db id ≡ some v)

pub pull-serve :
    (d : Digest) (s : RegistryService) (namespace name : String) (version : Option String)
    (agent : Agent) (v : AgentVersion)
    → get_agent s.db namespace name ≡ some agent
    → Resolves s.db agent.id version v
    → pull d s namespace name version none
      ≡ serve d namespace name v (Storage.get s.storage (bundle_key namespace name v.version))
unfolding pull resolve
pull-serve d s namespace name none agent v here found = rw (pull, here, found) refl
pull-serve d s namespace name (some n) agent v here (found, latest) = elim (Bool-cases (n == "")) [
  | inl e ↦ rw (pull, here, e, latest ((==_iff n "").0 e)) refl
  | inr e ↦ rw (pull, here, e, found) refl
]

intact : (d : Digest) (b : Buffer) → is_intact d b (some (d.to_hex (d.sha256 b))) ≡ true
intact d b = rw (d.from_hex-to_hex b) ((same_bytes_iff (d.sha256 b) (d.sha256 b)).1 refl)

-- Bytes that are served under a checksum have it.
serve_sound :
    (d : Digest) (namespace name : String) (v : AgentVersion) (o : Option Buffer) {p : Pulled}
    {b : Buffer}
    → v.bundle_sha256 ≡ some (d.to_hex (d.sha256 b))
    → serve d namespace name v o ≡ ok p
    → d.sha256 p.buffer ≡ d.sha256 b
serve_sound d namespace name v none sum got = cc
serve_sound d namespace name v (some buffer) {p} {b} sum got =
    elim (Bool-cases (is_intact d buffer v.bundle_sha256)) [
      | inl e ↦
          let same : d.sha256 buffer ≡ d.sha256 b =
            (same_bytes_iff (d.sha256 buffer) (d.sha256 b)).0
              (rw (sum, is_intact, d.from_hex-to_hex b) at e) in
          cc (rw (serve, e) at got, same)
      | inr e ↦ cc (rw (serve, e) at got)
    ]

-- A bundle whose push does not throw is what a pull of its number gives, and what a pull of the latest
-- version gives, with the checksum of its bytes; it is not verified.
pub pull-push :
    (d : Digest) (s : RegistryService) (r : PushRequest) {m : AgentMetadata}
    → (push d s r).1 ≡ ok m
    → let pulled : Pulled = record {
      buffer = r.bundle;
      version = r.version;
      verified = false;
      sha256 = some (d.to_hex (d.sha256 r.bundle));
    } in
      (pull d (push d s r).0 r.namespace r.name (some r.version) none ≡ ok pulled)
      × (pull d (push d s r).0 r.namespace r.name none none ≡ ok pulled)
pull-push d s r done =
    let (a, (there, found, latest)) = push-HasPushed d s r done in
    let row = version_row d a.id r in
    let s' = (push d s r).0 in
    let one =
      pull-serve d s' r.namespace r.name (some r.version) a row there (found, λ _. latest) in
    let last = pull-serve d s' r.namespace r.name none a row there latest in
    (
      rw (one, push-storage d s r done, serve, intact d r.bundle) refl,
      rw (last, push-storage d s r done, serve, intact d r.bundle) refl,
    )

-- The check at a pull: after a push, and whatever then becomes of the objects in the store, a pull of
-- the version gives bytes whose hash is that of the bundle that was pushed, or throws.
pub pull_tampered :
    (d : Digest) (s : RegistryService) (r : PushRequest) {m : AgentMetadata}
    → (push d s r).1 ≡ ok m
    → (storage : MemoryStorage) {p : Pulled}
    → pull d (record (push d s r).0 { storage = storage }) r.namespace r.name (some r.version) none
      ≡ ok p
    → d.sha256 p.buffer ≡ d.sha256 r.bundle
pull_tampered d s r done storage {p} got =
    let (a, (there, found, latest)) = push-HasPushed d s r done in
    let row = version_row d a.id r in
    let s' : RegistryService = record (push d s r).0 { storage = storage } in
    serve_sound d r.namespace r.name row
      (Storage.get storage (bundle_key r.namespace r.name r.version)) {b = r.bundle} refl
      (sym (pull-serve d s' r.namespace r.name (some r.version) a row there (found, λ _. latest))
        ∙ got)

get_or_create_there :
    (db : MemoryDb) (r : PushRequest) (a : Agent)
    → get_agent db r.namespace r.name ≡ some a
    → get_or_create db r ≡ (db, a)
unfolding get_or_create
get_or_create_there db r a here = rw (get_or_create, here) refl

push_taken :
    (d : Digest) (s : RegistryService) (r : PushRequest) (a : Agent) (v : AgentVersion)
    → get_agent s.db r.namespace r.name ≡ some a
    → get_version_by_number s.db a.id r.version ≡ some v
    → push d s r ≡ (s, throw (version_exists r))
unfolding push
push_taken d s r a v here taken =
    rw (push, get_or_create_there s.db r a here, taken)
      (ap
        (λ (p : MemoryDb × Agent).
          let refused : RegistryService × Outcome AgentMetadata =
            (record s { db = p.0 }, throw (version_exists r)) in
          refused)
        (get_or_create_there s.db r a here))

-- A version that has been published stays as it is: another push of its number, whatever its bundle and
-- whoever makes it, is answered with a conflict and changes nothing.
pub push_again :
    (d : Digest) (s : RegistryService) (r : PushRequest) {m : AgentMetadata}
    → (push d s r).1 ≡ ok m
    → (r' : PushRequest) → r'.namespace ≡ r.namespace
    → r'.name ≡ r.name
    → r'.version ≡ r.version
    → push d (push d s r).0 r' ≡ ((push d s r).0, throw (version_exists r'))
push_again d s r done r' ns name version =
    let (a, (there, found, latest)) = push-HasPushed d s r done in
    push_taken d (push d s r).0 r' a (version_row d a.id r) (rw (ns, name) there) (rw version found)
