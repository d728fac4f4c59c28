-- ===== src/Auth/Middleware/Soundness.antt =====
-- Whom the authentication chain lets in.
use Prim.Native.String.{slice}
use skrun.Base.{
  ℕ, String, ◌≡◌, refl, true, false, Option, none, some, [], ◌∷◌, template, ◌==◌, string_eq, ◌&&◌,
  not, ltb, subst, inl, inr, Bool-cases, Option-cases, arith,
}
use skrun.JsMap
use skrun.JsMap.{JsMap}
use skrun.Schema.{User, ApiKey, UserContext, Session}
use skrun.Db.{MemoryDb}
use skrun.Db.ApiKeys.{
  get_user_by_id, get_user_by_github_id, create_user, get_api_key_by_hash, get_api_key_agent_ids,
}
use skrun.Db.DeviceCodes
use skrun.Auth.{Crypto}
use skrun.Auth.Session.{validate_session}
use skrun.Auth.Middleware.{
  Settings, Credentials, next, is_api_key_format, user_context, dev_context, dev_namespace,
  session_id, session_user, is_expired, key_context, by_key, by_dev_token, by_bearer, authenticate,
}

module _ (c : Crypto) (s : Settings) (db : MemoryDb) (now : ℕ) where
  -- The three ways in, each with the context that it gives.
  pub data IsLetIn (req : Credentials) : UserContext → Type 0 where
    by_session :
        (id : String) (user : User)
        → session_id s req.session_cookies ≡ some id
        → (session_user c db (some id) now).1 ≡ some user
        → IsLetIn req (user_context user none)
    by_api_key :
        (token : String) (key : ApiKey) (user : User)
        → req.bearer ≡ some token
        → is_api_key_format token ≡ true
        → get_api_key_by_hash db (c.sha256_hex token) ≡ some key
        → is_expired key now ≡ false
        → get_user_by_id db key.user_id ≡ some user
        → IsLetIn req (user_context user (some (key_context db key)))
    by_dev :
        (token id namespace : String)
        → req.bearer ≡ some token
        → is_api_key_format token ≡ false
        → s.dev_auth_enabled ≡ true
        → s.oauth_configured ≡ false
        → IsLetIn req (dev_context id namespace)

  -- A session that is refused takes nothing but its own row away.
  session_user_frame :
      (o : Option String)
      → (session_user c db o now).0 ≡ record db { sessions = (session_user c db o now).0.sessions }
  unfolding session_user validate_session DeviceCodes.get_session DeviceCodes.delete_session
  session_user_frame none = refl
  session_user_frame (some id) = elim (Option-cases (JsMap.get db.sessions (c.sha256_hex id))) [
    | inl e ↦ ground (arith, e)
    | inr (row, e) ↦ elim (Bool-cases (ltb row.expires_at now)) [
      | inl t ↦ rw (session_user, validate_session, e, t) refl
      | inr t ↦ rw (session_user, validate_session, e, t) refl
    ]
  ]

  session_user_id :
      (o : Option String) (user : User)
      → (session_user c db o now).1 ≡ some user
      → (id : String) × (o ≡ some id) × ((session_user c db (some id) now).1 ≡ some user)
  unfolding session_user
  session_user_id none user e = ground arith
  session_user_id (some id) user e = (id, refl, e)

  by_key-next :
      (token : String) (ctx : UserContext)
      → (by_key c db token now).1 ≡ next ctx
      → (key : ApiKey) × (user : User) × (get_api_key_by_hash db (c.sha256_hex token) ≡ some key)
        × (is_expired key now ≡ false)
        × (get_user_by_id db key.user_id ≡ some user)
        × (user_context user (some (key_context db key)) ≡ ctx)
  unfolding by_key
  by_key-next token ctx t = elim (Option-cases (get_api_key_by_hash db (c.sha256_hex token))) [
    | inl e ↦ cc (rw (by_key, e) at t)
    | inr (key, e) ↦ elim (Bool-cases (is_expired key now)) [
      | inl x ↦ cc (rw (by_key, e, x) at t)
      | inr x ↦ elim (Option-cases (get_user_by_id db key.user_id)) [
        | inl n ↦ cc (rw (by_key, e, x, n) at t)
        | inr (user, f) ↦ (key, user, e, x, f, cc (rw (by_key, e, x, f) at t))
      ]
    ]
  ]

  by_dev_next :
      (token uuid : String) (ctx : UserContext)
      → (by_dev_token c db token now uuid).1 ≡ next ctx
      → (id : String) × (namespace : String) × (dev_context id namespace ≡ ctx)
  unfolding by_dev_token create_user
  by_dev_next token uuid ctx t =
      let github_id = template ("dev-" ∷ slice (c.sha256_hex token) 0 16 ∷ []) in
      elim (Option-cases (get_user_by_github_id db github_id)) [
        | inl e ↦ (uuid, dev_namespace token, cc (rw (by_dev_token, e) at t))
        | inr (u, e) ↦ (u.id, dev_namespace token, cc (rw (by_dev_token, e) at t))
      ]

module _ (c : Crypto) (s : Settings) (db : MemoryDb) (now : ℕ) (req : Credentials)
    (ctx : UserContext) where
  bearer-IsLetIn :
      (sessions : JsMap String Session) (bearer : Option String) (uuid : String)
      → req.bearer ≡ bearer
      → (by_bearer c s (record db { sessions = sessions }) bearer now uuid).1 ≡ next ctx
      → IsLetIn c s db now req ctx
  unfolding by_bearer get_api_key_by_hash get_user_by_id get_api_key_agent_ids
  bearer-IsLetIn sessions none uuid b t = ground arith
  bearer-IsLetIn sessions (some token) uuid b t =
      let db' : MemoryDb = record db { sessions = sessions } in
      elim (Bool-cases (token == "")) [
        | inl x ↦ cc (rw (by_bearer, x) at t)
        | inr x ↦ elim (Bool-cases (is_api_key_format token)) [
          | inl f ↦
              let (key, user, found, fresh, owner, is) =
                by_key-next c s db' now token ctx (rw (by_bearer, x, f) at t) in
              subst (λ k. IsLetIn c s db now req k) is
                (by_api_key token key user b f found fresh owner)
          | inr f ↦ elim (Bool-cases (s.dev_auth_enabled && not s.oauth_configured)) [
            | inl d ↦
                let (id, namespace, is) =
                  by_dev_next c s db' now token uuid ctx (rw (by_bearer, x, f, d) at t) in
                subst (λ k. IsLetIn c s db now req k) is
                  (by_dev token id namespace b f (ground arith) (ground arith))
            | inr d ↦ cc (rw (by_bearer, x, f, d) at t)
          ]
        ]
      ]

-- A request that is let in as some user came with a session that names the user, with an unexpired API
-- key that is in the table and whose owner is, or with another bearer token on a server that has the
-- developer login on and OAuth not configured; the context is the one of that way in.
pub authenticate_lem :
    (c : Crypto) (s : Settings) (db : MemoryDb) (req : Credentials) (now : ℕ) (uuid : String)
    → (ctx : UserContext) → (authenticate c s db req now uuid).1 ≡ next ctx
    → IsLetIn c s db now req ctx
unfolding authenticate
authenticate_lem c s db req now uuid ctx t =
    let o = session_id s req.session_cookies in
    elim (Option-cases (session_user c db o now).1) [
      | inl e ↦
          bearer-IsLetIn c s db now req ctx (session_user c db o now).0.sessions req.bearer uuid
            refl
            (subst (λ db'. (by_bearer c s db' req.bearer now uuid).1 ≡ next ctx)
              (session_user_frame c s db now o) (rw (authenticate, e) at t))
      | inr (user, e) ↦
          let (id, named, found) = session_user_id c s db now o user e in
          subst (λ k. IsLetIn c s db now req k) (cc (rw (authenticate, e) at t))
            (by_session id user named found)
    ]
