-- ===== src/Auth/Middleware/ByKey.antt =====
-- A key of the table as a bearer token, from its creation to its deletion.
use skrun.Base.{
  ℕ, String, ◌≡◌, refl, true, false, none, some, List, [], ◌∷◌, ◌==◌, string_eq, if◌then◌else◌, inl,
  inr, Bool-cases, get_or, arith, ◌∙◌, subst, ==_iff,
}
use skrun.JsMap
use skrun.JsMap.{JsMap}
use skrun.JsMap.Laws.{get-set_self}
use skrun.Schema.{User, ApiKey, is_account, KeyContext}
use skrun.Db.{MemoryDb}
use skrun.Db.ApiKeys.{
  NewApiKey, api_key_row, grant, create_api_key, get_user_by_id, get_api_key_by_hash,
  get_api_key_agent_ids, delete_api_key,
}
use skrun.Db.ApiKeys.Index.{
  KeysAgree, create_api_key-KeysAgree, get-create_api_key, delete_api_key_revokes,
}
use skrun.Auth.{Crypto}
use skrun.Auth.Middleware.{
  Settings, Credentials, next, unauthorized, is_api_key_format, user_context, session_id,
  session_user, is_expired, key_context, by_key, by_bearer, authenticate,
}

-- A request with the token as its bearer and no cookie.
abbrev pub bearing : String → Credentials
bearing token = record { session_cookies = []; bearer = some token }

-- The context that the key of the row was created for.
abbrev pub granted_context : NewApiKey → ℕ → String → KeyContext
granted_context row now uuid =
    let key = api_key_row row now uuid in
    record {
      id = uuid;
      scope_kind = key.scope_kind;
      operations = key.scopes;
      agent_ids = if is_account key.scope_kind then [] else row.agents;
    }

module _ (c : Crypto) (s : Settings) (token : String) (shape : is_api_key_format token ≡ true) where
  -- A token of that shape is not empty.
  shaped : (token == "") ≡ false
  unfolding is_api_key_format
  shaped = elim (Bool-cases (token == "")) [
    | inl e ↦ cc (subst (λ t. is_api_key_format t ≡ true) ((==_iff token "").0 e) shape)
    | inr e ↦ e
  ]

  bearing_key :
      (db : MemoryDb) (now : ℕ) (uuid : String)
      → (authenticate c s db (bearing token) now uuid).1 ≡ (by_key c db token now).1
  unfolding authenticate session_id session_user by_bearer
  bearing_key db now uuid = rw (by_bearer, shaped, shape) refl

get-grant :
    (m : JsMap String (List String)) (id : String) (ids : List String)
    → JsMap.get m id ≡ none
    → get_or (JsMap.get (grant m id ids) id) [] ≡ ids
get-grant m id [] h = rw h refl
get-grant m id (a ∷ ids) h = rw (get-set_self m id (a ∷ ids)) refl

module _ (c : Crypto) (token : String) (now : ℕ) (db : MemoryDb) where
  by_key-known :
      (key : ApiKey) (owner : User)
      → get_api_key_by_hash db (c.sha256_hex token) ≡ some key
      → get_user_by_id db key.user_id ≡ some owner
      → (by_key c db token now).1 ≡ (
          if is_expired key now
          then unauthorized "API key has expired"
          else next (user_context owner (some (key_context db key))))
  unfolding by_key
  by_key-known key owner found there = elim (Bool-cases (is_expired key now)) [
    | inl x ↦ rw (by_key, found, x) refl
    | inr x ↦ rw (by_key, found, x, there) refl
  ]

  by_key-unknown :
      get_api_key_by_hash db (c.sha256_hex token) ≡ none
      → (by_key c db token now).1 ≡ unauthorized "Invalid API key"
  unfolding by_key
  by_key-unknown gone = rw (by_key, gone) refl

module _ (db : MemoryDb) (row : NewApiKey) (now : ℕ) (uuid : String) where
  created_context :
      JsMap.get db.api_key_agents uuid ≡ none
      → key_context (create_api_key db row now uuid).0 (api_key_row row now uuid)
        ≡ granted_context row now uuid
  unfolding create_api_key get_api_key_agent_ids
  created_context fresh = rw (get-grant db.api_key_agents uuid row.agents fresh) refl

  created_row :
      JsMap.get (create_api_key db row now uuid).0.api_keys uuid ≡ some (api_key_row row now uuid)
  unfolding create_api_key
  created_row = get-set_self db.api_keys uuid _

  created_owner :
      (id : String) → get_user_by_id (create_api_key db row now uuid).0 id ≡ JsMap.get db.users id
  unfolding create_api_key get_user_by_id
  created_owner id = refl

module _ (c : Crypto) (token : String) (db : MemoryDb) (row : NewApiKey) (now later : ℕ)
    (uuid : String) (hashed : row.key_hash ≡ c.sha256_hex token) where
  created_found :
      get_api_key_by_hash (create_api_key db row now uuid).0 (c.sha256_hex token)
      ≡ some (api_key_row row now uuid)
  created_found =
      subst
        (λ h.
          get_api_key_by_hash (create_api_key db row now uuid).0 h
          ≡ some (api_key_row row now uuid))
        hashed (get-create_api_key db row now uuid)

  created_works :
      (owner : User)
      → JsMap.get db.api_key_agents uuid ≡ none
      → JsMap.get db.users row.user_id ≡ some owner
      → (by_key c (create_api_key db row now uuid).0 token later).1 ≡ (
          if is_expired (api_key_row row now uuid) later
          then unauthorized "API key has expired"
          else next (user_context owner (some (granted_context row now uuid))))
  created_works owner fresh there =
      subst
        (λ k. (by_key c (create_api_key db row now uuid).0 token later).1 ≡ (
          if is_expired (api_key_row row now uuid) later
          then unauthorized "API key has expired"
          else next (user_context owner (some k))))
        (created_context db row now uuid fresh)
        (by_key-known c token later (create_api_key db row now uuid).0 (api_key_row row now uuid)
          owner created_found (created_owner db row now uuid row.user_id ∙ there))

  deleted_unknown :
      KeysAgree (create_api_key db row now uuid).0
      → (by_key c (delete_api_key (create_api_key db row now uuid).0 uuid).0 token later).1
        ≡ unauthorized "Invalid API key"
  deleted_unknown v =
      let created = (create_api_key db row now uuid).0 in
      let (_, unknown, _, _) =
        delete_api_key_revokes created uuid (api_key_row row now uuid) v
          (created_row db row now uuid) (c.sha256_hex token) in
      by_key-unknown c token later (delete_api_key created uuid).0 (ground (arith, unknown, hashed))

-- In agreeing key tables, a key that is created under an identifier and a hash that the tables do not
-- have, for an owner that is there, lets the token with that hash in as the owner with what the key was
-- created for, until the key expires, and is refused as expired from then on. Once the key is deleted,
-- the token is refused as invalid.
pub created_key_lem :
    (c : Crypto) (s : Settings) (token : String) (db : MemoryDb) (row : NewApiKey) (owner : User)
    → (now later : ℕ) (uuid other : String) → is_api_key_format token ≡ true
    → row.key_hash ≡ c.sha256_hex token
    → KeysAgree db
    → JsMap.get db.api_keys uuid ≡ none
    → JsMap.get db.api_keys_by_hash row.key_hash ≡ none
    → JsMap.get db.api_key_agents uuid ≡ none
    → JsMap.get db.users row.user_id ≡ some owner
    → let created = (create_api_key db row now uuid).0 in
      let deleted = (delete_api_key created uuid).0 in
      ((authenticate c s created (bearing token) later other).1 ≡ (
        if is_expired (api_key_row row now uuid) later
        then unauthorized "API key has expired"
        else next (user_context owner (some (granted_context row now uuid)))))
      × ((authenticate c s deleted (bearing token) later other).1 ≡ unauthorized "Invalid API key")
created_key_lem c s token db row owner now later uuid other shape hashed v new_id new_hash fresh
      there =
    let created = (create_api_key db row now uuid).0 in
    let deleted = (delete_api_key created uuid).0 in
    (
      bearing_key c s token shape created later other
          ∙ created_works c token db row now later uuid hashed owner fresh there,
      bearing_key c s token shape deleted later other
          ∙ deleted_unknown c token db row now later uuid hashed
              (create_api_key-KeysAgree db row now uuid v new_id new_hash),
    )
