-- ===== src/Auth/Middleware.antt =====
-- packages/api/src/middleware/auth.ts, over api-key.ts: the authentication chain of a request. Of the
-- headers the model has the values that carry the session cookie's name, in their order, and the text
-- after "Bearer ", trimmed; the erasure of planted cookies and the logging are left out.
pub mod Soundness
pub mod ByKey
use Prim.Native.Char.{Char, code}
use Prim.Native.String as Text
use Prim.Native.String.{slice, count}
use text.Mathlib.Text.{starts_with, find?}
use skrun.Base.{
  ℕ, suc, String, Bool, true, false, not, ◌&&◌, ◌||◌, Option, none, some, List, [], ◌∷◌, ◌==◌,
  string_eq, nat_eq, ltb, leb, if◌then◌else◌, template, get_or, length,
}
use skrun.Schema.{User, admin, agents, is_account, ApiKey, KeyContext, UserContext}
use skrun.Db.{MemoryDb}
use skrun.Db.ApiKeys.{
  get_user_by_id, get_user_by_github_id, create_user, get_api_key_by_hash, update_api_key_last_used,
  get_api_key_agent_ids,
}
use skrun.Auth.{Crypto}
use skrun.Auth.Session.{validate_session}

-- `isOAuthConfigured`, `isDevAuthEnabled`, and whether the cookie's name has the prefix `__Secure-`.
pub record Settings : Type 0 where
  pub oauth_configured : Bool
  pub dev_auth_enabled : Bool
  pub secure_name : Bool

pub record Credentials : Type 0 where
  pub session_cookies : List String
  pub bearer : Option String

-- The handler goes on with a user, or answers 401 with a message.
pub data AuthAnswer : Type 0 where
  next : UserContext → AuthAnswer
  unauthorized : (message : String) → AuthAnswer

-- `/^[0-9a-f]+$/`, of a text that is not empty
abbrev pub is_hex_digit : Char → Bool
is_hex_digit d = (leb 48 (code d) && leb (code d) 57) || (leb 97 (code d) && leb (code d) 102)

unfoldable pub all_hex : String → Bool
all_hex Text.[] = true
all_hex (Text.◌∷◌ d s) = is_hex_digit d && all_hex s

unfoldable pub is_api_key_format : String → Bool
is_api_key_format token =
    if not (starts_with token "sk_live_")
    then false
    else let suffix = slice token 8 (Text.len token) in count suffix == 32 && all_hex suffix

-- `a || undefined`
abbrev pub or_undefined : String → Option String
or_undefined s = if s == "" then none else some s

abbrev pub user_context : User → Option KeyContext → UserContext
user_context u key = record {
  id = u.id;
  namespace = u.username;
  username = u.username;
  email = or_undefined u.email;
  avatar_url = or_undefined u.avatar_url;
  plan = or_undefined u.plan;
  role = u.role;
  key = key;
}

-- Steps 0 and 1. `getCookie` keeps the first of several values.
unfoldable pub session_id : Settings → List String → Option String
session_id s [] = none
session_id s (v ∷ vs) =
    if (s.secure_name && ltb 1 (length (v ∷ vs))) || v == "" then none else some v

unfoldable pub session_user : Crypto → MemoryDb → Option String → ℕ → MemoryDb × Option User
session_user c db none now = (db, none)
session_user c db (some id) now =
    let (db', user_id) = validate_session c db id now in
    (db', elim user_id [ none ↦ none | some u ↦ if u == "" then none else get_user_by_id db' u ])

-- Step 2
unfoldable pub is_expired : ApiKey → ℕ → Bool
is_expired key now = elim key.expires_at [ none ↦ false | some at ↦ ltb at now ]

abbrev pub key_context : MemoryDb → ApiKey → KeyContext
key_context db key = record {
  id = key.id;
  scope_kind = key.scope_kind;
  operations = key.scopes;
  agent_ids = if is_account key.scope_kind then [] else get_api_key_agent_ids db key.id;
}

unfoldable pub by_key : Crypto → MemoryDb → String → ℕ → MemoryDb × AuthAnswer
by_key c db token now = elim (get_api_key_by_hash db (c.sha256_hex token)) [
  | none ↦ (db, unauthorized "Invalid API key")
  | some key ↦
      if is_expired key now
      then (db, unauthorized "API key has expired")
      else elim (get_user_by_id db key.user_id) [
        | none ↦ (db, unauthorized "API key owner not found")
        | some user ↦ (
          update_api_key_last_used db key.id now,
          next (user_context user (some (key_context db key))),
        )
      ]
]

-- Step 3: `token.split("-")[0] || "user"`
abbrev pub before_dash : String → String
before_dash token = elim (find? token "-") [ none ↦ token | some i ↦ slice token 0 i ]

abbrev pub dev_namespace : String → String
dev_namespace token =
    if token == "dev-token"
    then "dev"
    else let head = before_dash token in if head == "" then "user" else head

abbrev pub dev_context : String → String → UserContext
dev_context id namespace = record {
  id = id;
  namespace = namespace;
  username = namespace;
  email = none;
  avatar_url = none;
  plan = none;
  role = admin;
  key = none;
}

unfoldable pub by_dev_token : Crypto → MemoryDb → String → ℕ → String → MemoryDb × AuthAnswer
by_dev_token c db token now uuid =
    let namespace = dev_namespace token in
    let github_id = template ("dev-" ∷ slice (c.sha256_hex token) 0 16 ∷ []) in
    elim (get_user_by_github_id db github_id) [
      | some user ↦ (db, next (dev_context user.id namespace))
      | none ↦
          let (db', user) =
            create_user db
              (record {
                github_id = github_id;
                username = namespace;
                email = none;
                avatar_url = none;
              })
              now uuid in
          (db', next (dev_context user.id namespace))
    ]

unfoldable pub by_bearer :
    Crypto → Settings → MemoryDb → Option String → ℕ → String → MemoryDb × AuthAnswer
by_bearer c s db none now uuid = (
  db,
  unauthorized (
      if s.oauth_configured
      then "Authentication required. Sign in via OAuth or use an API key (sk_live_*)."
      else "Missing or invalid Authorization header. Use: Bearer <token>"),
)
by_bearer c s db (some token) now uuid =
    if token == ""
    then (db, unauthorized "Empty token")
    else if is_api_key_format token
    then by_key c db token now
    else if s.dev_auth_enabled && not s.oauth_configured
    then by_dev_token c db token now uuid
    else (
      db,
      unauthorized "Invalid authentication. Use an API key (sk_live_*) or sign in via OAuth.",
    )

unfoldable pub authenticate :
    Crypto → Settings → MemoryDb → Credentials → ℕ → String → MemoryDb × AuthAnswer
authenticate c s db req now uuid =
    let (db', found) = session_user c db (session_id s req.session_cookies) now in
    elim found [
      | some user ↦ (db', next (user_context user none))
      | none ↦ by_bearer c s db' req.bearer now uuid
    ]
