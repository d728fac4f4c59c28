-- ===== src/Auth/Session.antt =====
-- packages/api/src/auth/session.ts: the browser sessions, over the `sessions` table.
use skrun.Base.{
  ℕ, ◌+◌, String, ◌≡◌, ◌≢◌, refl, sym, ◌∙◌, Option, none, some, ltb, if◌then◌else◌, inl, inr,
  Option-cases, string_eq, arith,
}
use skrun.JsMap
use skrun.JsMap.{JsMap, Distinct}
use skrun.JsMap.Laws.{get-set_self, get-set_ne, get-delete_self}
use skrun.Schema.{Session}
use skrun.Db.{MemoryDb}
use skrun.Db.DeviceCodes
use skrun.Auth.{Crypto}

unfoldable pub create_session : Crypto → MemoryDb → String → ℕ → ℕ → String → MemoryDb
create_session c db user_id ttl_ms now session_id =
    DeviceCodes.create_session db
      (record { id_hash = c.sha256_hex session_id; user_id = user_id; expires_at = now + ttl_ms })
      now

unfoldable pub validate_session : Crypto → MemoryDb → String → ℕ → MemoryDb × Option String
validate_session c db session_id now =
    let id_hash = c.sha256_hex session_id in
    elim (DeviceCodes.get_session db id_hash) [
      | none ↦ (db, none)
      | some session ↦
          if ltb session.expires_at now
          then (DeviceCodes.delete_session db id_hash, none)
          else (db, some session.user_id)
    ]

unfoldable pub destroy_session : Crypto → MemoryDb → String → MemoryDb
destroy_session c db session_id = DeviceCodes.delete_session db (c.sha256_hex session_id)

abbrev user_of : Option Session → ℕ → Option String
user_of none now = none
user_of (some s) now = if ltb s.expires_at now then none else some s.user_id

module _ (c : Crypto) (id : String) (now : ℕ) where
  validate-found :
      (db : MemoryDb) (o : Option Session)
      → JsMap.get db.sessions (c.sha256_hex id) ≡ o
      → (validate_session c db id now).1 ≡ user_of o now
  unfolding validate_session DeviceCodes.get_session
  validate-found db none e = rw (validate_session, e) refl
  validate-found db (some s) e = ground arith

  validate-left :
      (db : MemoryDb)
      → Distinct db.sessions
      → (validate_session c db id now).1 ≡ none
      → JsMap.get (validate_session c db id now).0.sessions (c.sha256_hex id) ≡ none
  unfolding validate_session DeviceCodes.get_session DeviceCodes.delete_session
  validate-left db d h = elim (Option-cases (JsMap.get db.sessions (c.sha256_hex id))) [
    | inl e ↦ ground arith
    | inr (s, e) ↦ ground (arith, get-delete_self db.sessions (c.sha256_hex id) d)
  ]

module _ (c : Crypto) (db : MemoryDb) (user_id id : String) (ttl now : ℕ) where
  created :
      JsMap.get (create_session c db user_id ttl now id).sessions (c.sha256_hex id)
      ≡ some (record {
        id_hash = c.sha256_hex id;
        user_id = user_id;
        created_at = now;
        expires_at = now + ttl;
      })
  unfolding create_session DeviceCodes.create_session
  created = get-set_self db.sessions (c.sha256_hex id) _

  others :
      (other : String)
      → c.sha256_hex id ≢ c.sha256_hex other
      → JsMap.get (create_session c db user_id ttl now id).sessions (c.sha256_hex other)
        ≡ JsMap.get db.sessions (c.sha256_hex other)
  unfolding create_session DeviceCodes.create_session
  others other h = get-set_ne db.sessions (c.sha256_hex id) (c.sha256_hex other) _ h

-- A new session names its user up to the end of its lifetime and nobody later, and no session with
-- another hash answers differently because of it.
pub create_session_lem :
    (c : Crypto) (db : MemoryDb) (user_id id other : String) (ttl now later : ℕ)
    → let db' = create_session c db user_id ttl now id in
      ((validate_session c db' id later).1 ≡ (if ltb (now + ttl) later then none else some user_id))
      × (c.sha256_hex id ≢ c.sha256_hex other
          → (validate_session c db' other later).1 ≡ (validate_session c db other later).1)
create_session_lem c db user_id id other ttl now later = (
  validate-found c id later (create_session c db user_id ttl now id) _
      (created c db user_id id ttl now),
  (λ h.
      validate-found c other later (create_session c db user_id ttl now id) _
        (others c db user_id id ttl now other h)
      ∙ sym (validate-found c other later db _ refl)),
)

-- In a table of distinct keys, a session that was refused is refused at every instant from
-- then on, and so is a destroyed one.
pub refused_stays :
    (c : Crypto) (db : MemoryDb) (id : String) (now later : ℕ)
    → Distinct db.sessions
    → ((validate_session c db id now).1 ≡ none
        → (validate_session c (validate_session c db id now).0 id later).1 ≡ none)
      × ((validate_session c (destroy_session c db id) id later).1 ≡ none)
unfolding destroy_session DeviceCodes.delete_session
refused_stays c db id now later d = (
  (λ h.
      validate-found c id later (validate_session c db id now).0 none
        (validate-left c id now db d h)),
  validate-found c id later (destroy_session c db id) none
      (get-delete_self db.sessions (c.sha256_hex id) d),
)
