-- ===== src/Auth/DeviceLogin.antt =====
-- packages/api/src/routes/auth.ts, the device login (RFC 8628 with PKCE), over pkce.ts, api-key.ts,
-- device-code.ts and key-expiry.ts. A request's fields are held as the source's `trim` and
-- `toUpperCase` leave them; the clock is read once in a request, in milliseconds.
pub mod Poll
pub mod SingleUse
pub mod Attempts
use Prim.Native.String.{slice}
use skrun.Base.{
  ℕ, ◌+◌, ◌*◌, String, Bool, true, false, not, ◌&&◌, ◌||◌, Option, none, some, [], ◌∷◌, ◌==◌,
  string_eq, nat_eq, ltb, leb, if◌then◌else◌, template, get_or,
}
use skrun.Schema.{DeviceCode, User, is_pending}
use skrun.Db.{MemoryDb}
use skrun.Db.ApiKeys.{NewApiKey, get_user_by_id, create_api_key}
use skrun.Db.DeviceCodes.{
  create_device_code, get_device_code_by_device_hash, get_device_code_by_user_hash,
  authorize_device_code, record_device_code_poll, increment_device_code_attempts,
  consume_device_code, purge_expired_device_codes,
}
use skrun.Auth.{Crypto}

unfoldable pub verify_challenge : Crypto → String → String → Bool
verify_challenge c verifier challenge =
    if verifier == "" || challenge == "" then false else c.sha256_base64url verifier == challenge

abbrev pub verify_csrf_token : Option String → Option String → Bool
verify_csrf_token none field = false
verify_csrf_token (some cookie) none = false
verify_csrf_token (some cookie) (some field) =
    if cookie == "" || field == "" then false else cookie == field

-- `days` is what `resolveTtlDays` reads in the environment.
abbrev pub resolve_default_key_expiry : ℕ → ℕ → Option ℕ
resolve_default_key_expiry days now = if days == 0 then none else some (now + days * 86400000)

pub record NewKey : Type 0 where
  pub key : String
  pub key_hash : String
  pub key_prefix : String

-- `random` is the 32 hexadecimal digits of `randomBytes(16)`.
abbrev pub generate_api_key : Crypto → String → NewKey
generate_api_key c random =
    let key = template ("sk_live_" ∷ random ∷ []) in
    record {
      key = key;
      key_hash = c.sha256_hex key;
      key_prefix = template ("sk_live_" ∷ slice random 0 8 ∷ []);
    }

-- What the handlers answer: an error with its code and message, and the successes.
pub data Answer : Type 0 where
  error : (code message : String) → Answer
  code_issued : (device_code user_code : String) (interval : ℕ) → Answer
  sign_in : (user_code : String) → Answer
  device_error_page : Answer
  device_done_page : Answer
  token : (token username : String) → Answer

-- `POST /auth/device/code`
pub record CodeRequest : Type 0 where
  pub code_challenge : Option String
  pub code_challenge_method : Option String

abbrev pub is_s256 : Option String → Bool
is_s256 none = true
is_s256 (some m) = m == "" || m == "S256"

unfoldable pub device_code :
    Crypto → MemoryDb → Bool → CodeRequest → ℕ → ℕ → String → String → MemoryDb × Answer
device_code c db oauth_configured body ttl_seconds now raw user_code =
    if not oauth_configured
    then (db, error "OAUTH_NOT_CONFIGURED" "GitHub OAuth is not configured")
    else let code_challenge = get_or body.code_challenge "" in
      if code_challenge == "" || not (is_s256 body.code_challenge_method)
      then (db, error "invalid_request" "code_challenge (PKCE S256) is required")
      else let swept = purge_expired_device_codes db now in
        (
          create_device_code swept
              (record {
                device_code_hash = c.sha256_hex raw;
                user_code_hash = c.sha256_hex user_code;
                code_challenge = code_challenge;
                expires_at = now + ttl_seconds * 1000;
                current_interval = none;
              })
              now,
          code_issued raw user_code 5,
        )

-- `POST /device`
unfoldable pub confirm_device :
    Crypto → MemoryDb → Option String → Option String → String → ℕ → Answer
confirm_device c db csrf_cookie form_csrf user_code now =
    if not (verify_csrf_token csrf_cookie form_csrf)
    then error "CSRF_FAILED" "Invalid CSRF token"
    else if user_code == ""
    then device_error_page
    else elim (get_device_code_by_user_hash db (c.sha256_hex user_code)) [
      | none ↦ device_error_page
      | some dc ↦
          if ltb dc.expires_at now || not (is_pending dc.status)
          then device_error_page
          else sign_in user_code
    ]

-- The end of `GET /auth/github/callback` in a browser that carries the code's cookie.
unfoldable pub bind_device : Crypto → MemoryDb → String → String → MemoryDb × Answer
bind_device c db device_user_code user_id =
    let (db', ok) = authorize_device_code db (c.sha256_hex device_user_code) user_id in
    (db', if ok then device_done_page else device_error_page)

-- `POST /auth/device/token`
pub record TokenRequest : Type 0 where
  pub device_code : Option String
  pub code_verifier : Option String

-- The poll came before the interval was over.
abbrev pub is_too_fast : DeviceCode → ℕ → Bool
is_too_fast dc now = elim dc.last_polled_at [
  | none ↦ false
  | some at ↦ ltb now (at + dc.current_interval * 1000)
]

abbrev pub expired_token : Answer
expired_token = error "expired_token" "The device code has expired"

-- A failed verification: three of them consume the code.
unfoldable pub count_attempt : MemoryDb → String → MemoryDb × Answer
count_attempt db hash =
    let (db', attempts) = increment_device_code_attempts db hash in
    (
      if leb 3 attempts then consume_device_code db' hash else db',
      error "invalid_grant" "PKCE verification failed",
    )

-- What the server adds to a poll: the setting of `resolveTtlDays`, the digits of `randomBytes` and the
-- identifier of the key.
pub record Fresh : Type 0 where
  pub key_ttl_days : ℕ
  pub random : String
  pub uuid : String

abbrev pub login_key : Crypto → String → ℕ → Fresh → NewApiKey
login_key c user_id now fresh =
    let k = generate_api_key c fresh.random in
    record {
      user_id = user_id;
      key_hash = k.key_hash;
      key_prefix = k.key_prefix;
      name = "CLI login";
      scopes = none;
      scope_kind = none;
      agents = [];
      expires_at = resolve_default_key_expiry fresh.key_ttl_days now;
    }

-- The key is minted for the user, and the code is consumed.
unfoldable pub mint : Crypto → MemoryDb → String → String → User → ℕ → Fresh → MemoryDb × Answer
mint c db hash user_id user now fresh = (
  consume_device_code (create_api_key db (login_key c user_id now fresh) now fresh.uuid).0 hash,
  token (generate_api_key c fresh.random).key user.username,
)

-- An authorized code has a user (`dc.user_id!`); a user that is gone consumes the code.
unfoldable pub exchange : Crypto → MemoryDb → String → DeviceCode → ℕ → Fresh → MemoryDb × Answer
exchange c db hash dc now fresh = elim dc.user_id [
  | none ↦ (consume_device_code db hash, expired_token)
  | some user_id ↦ elim (get_user_by_id db user_id) [
    | none ↦ (consume_device_code db hash, expired_token)
    | some user ↦ mint c db hash user_id user now fresh
  ]
]

unfoldable pub poll : Crypto → MemoryDb → TokenRequest → ℕ → Fresh → MemoryDb × Answer
poll c db body now fresh =
    let code = get_or body.device_code "" in
    if code == ""
    then (db, error "invalid_request" "device_code is required")
    else let hash = c.sha256_hex code in
      elim (get_device_code_by_device_hash db hash) [
        | none ↦ (purge_expired_device_codes db now, expired_token)
        | some dc ↦
            if ltb dc.expires_at now
            then (purge_expired_device_codes db now, expired_token)
            else if is_too_fast dc now
            then (record_device_code_poll db hash true now, error "slow_down" "Polling too fast")
            else let polled = record_device_code_poll db hash false now in
              if is_pending dc.status
              then (polled, error "authorization_pending" "Not yet authorized")
              else if not (verify_challenge c (get_or body.code_verifier "") dc.code_challenge)
              then count_attempt polled hash
              else exchange c polled hash dc now fresh
      ]
