-- ===== src/Auth/DeviceLogin/Attempts.antt =====
-- The rows of the device codes, through every request of the device login.
use skrun.Base.{
  ℕ, ◌+◌, ◌*◌, ◌≤◌, String, ◌≡◌, refl, Bool, true, false, not, Option, none, some, List, [], ◌∷◌,
  string_eq, leb, get_or, inl, inr, Bool-cases, Option-cases, arith,
}
use skrun.JsMap
use skrun.JsMap.{JsMap}
use skrun.JsMap.Values.{
  AllValues, get-AllValues, set-AllValues, delete-AllValues, reject-AllValues, delete-set,
}
use skrun.Schema.{DeviceCode, is_pending}
use skrun.Db.{MemoryDb}
use skrun.Db.DeviceCodes.{
  NewDeviceCode, create_device_code, get_device_code_by_device_hash, authorize_first,
  authorize_device_code, record_device_code_poll, increment_device_code_attempts,
  consume_device_code, purge_expired_device_codes,
}
use skrun.Db.ApiKeys.{create_api_key}
use skrun.Auth.{Crypto}
use skrun.Auth.DeviceLogin.{
  CodeRequest, TokenRequest, Fresh, device_code, bind_device, count_attempt, exchange, mint, poll,
}

-- A row has less than three failed verifications, and has a user exactly when it is authorized.
abbrev has_user : Option String → Bool
has_user none = false
has_user (some id) = true

abbrev pub CodeOk : DeviceCode → Type 0
CodeOk dc = (dc.attempt_count ≤ 2) × (has_user dc.user_id ≡ not (is_pending dc.status))

abbrev pub CodesOk : MemoryDb → Type 0
CodesOk db = AllValues CodeOk db.device_codes

create-CodesOk :
    (db : MemoryDb) (row : NewDeviceCode) (now : ℕ)
    → CodesOk db
    → CodesOk (create_device_code db row now)
unfolding create_device_code
create-CodesOk db row now h =
    set-AllValues CodeOk db.device_codes row.device_code_hash _ h (omega arith, refl)

authorize_first-CodesOk :
    (user_code_hash user_id : String) (m : JsMap String DeviceCode)
    → AllValues CodeOk m
    → AllValues CodeOk (authorize_first user_code_hash user_id m).0
unfolding authorize_first
authorize_first-CodesOk user_code_hash user_id [] h = tt
authorize_first-CodesOk user_code_hash user_id ((hash, dc) ∷ m) (h, hs) =
    ground (arith, authorize_first-CodesOk user_code_hash user_id m hs)

module _ (db : MemoryDb) (hash : String) (h : CodesOk db) where
  record_poll-CodesOk :
      (slow_down : Bool) (now : ℕ) → CodesOk (record_device_code_poll db hash slow_down now)
  unfolding record_device_code_poll
  record_poll-CodesOk slow_down now = elim (Option-cases (JsMap.get db.device_codes hash)) [
    | inl e ↦ rw (record_device_code_poll, e) h
    | inr (dc, e) ↦
        rw (record_device_code_poll, e)
          (set-AllValues CodeOk db.device_codes hash _ h
            (get-AllValues CodeOk db.device_codes hash dc h e))
  ]

  consume-CodesOk : CodesOk (consume_device_code db hash)
  unfolding consume_device_code
  consume-CodesOk = delete-AllValues CodeOk db.device_codes hash h

  purge-CodesOk : (now : ℕ) → CodesOk (purge_expired_device_codes db now)
  unfolding purge_expired_device_codes
  purge-CodesOk now = reject-AllValues CodeOk _ db.device_codes h

  incremented :
      (dc : DeviceCode)
      → JsMap.get db.device_codes hash ≡ some dc
      → increment_device_code_attempts db hash ≡ (
        record db {
          device_codes =
              JsMap.set db.device_codes hash (record dc { attempt_count = dc.attempt_count + 1 });
        },
        dc.attempt_count + 1,
      )
  unfolding increment_device_code_attempts
  incremented dc e = rw (increment_device_code_attempts, e) refl

  counted :
      (dc : DeviceCode)
      → JsMap.get db.device_codes hash ≡ some dc
      → CodeOk dc
      → CodesOk (count_attempt db hash).0
  unfolding count_attempt consume_device_code
  counted dc e (few, owned) = elim (Bool-cases (leb 3 (dc.attempt_count + 1))) [
    | inl t ↦
        rw (count_attempt, incremented dc e, t, consume_device_code, delete-set)
          (delete-AllValues CodeOk db.device_codes hash h)
    | inr t ↦
        rw (count_attempt, incremented dc e, t)
          (set-AllValues CodeOk db.device_codes hash _ h (ground arith, owned))
  ]

  count_attempt-CodesOk : CodesOk (count_attempt db hash).0
  unfolding count_attempt increment_device_code_attempts consume_device_code
  count_attempt-CodesOk = elim (Option-cases (JsMap.get db.device_codes hash)) [
    | inl e ↦ rw (count_attempt, increment_device_code_attempts, e) h
    | inr (dc, e) ↦ counted dc e (get-AllValues CodeOk db.device_codes hash dc h e)
  ]

module _ (c : Crypto) (db : MemoryDb) (h : CodesOk db) where
  exchange-CodesOk :
      (hash : String) (dc : DeviceCode) (now : ℕ) (fresh : Fresh)
      → CodesOk (exchange c db hash dc now fresh).0
  unfolding exchange mint create_api_key consume_device_code
  exchange-CodesOk hash dc now fresh = ground (arith, consume-CodesOk db hash h)

module _ (c : Crypto) (db : MemoryDb) (h : CodesOk db) where
  poll-CodesOk :
      (body : TokenRequest) (now : ℕ) (fresh : Fresh) → CodesOk (poll c db body now fresh).0
  unfolding poll get_device_code_by_device_hash
  poll-CodesOk body now fresh =
      let hash = c.sha256_hex (get_or body.device_code "") in
      let polled = record_device_code_poll db hash false now in
      elim (Option-cases (JsMap.get db.device_codes hash)) [
        | inl e ↦ ground (arith, purge-CodesOk db "" h now)
        | inr (dc, e) ↦ ground (
          arith,
          purge-CodesOk db "" h now,
          record_poll-CodesOk db hash h true now,
          record_poll-CodesOk db hash h false now,
          count_attempt-CodesOk polled hash (record_poll-CodesOk db hash h false now),
          exchange-CodesOk c polled (record_poll-CodesOk db hash h false now) hash dc now fresh,
        )
      ]

  device_code-CodesOk :
      (oauth_configured : Bool) (body : CodeRequest) (ttl_seconds now : ℕ) (raw user_code : String)
      → CodesOk (device_code c db oauth_configured body ttl_seconds now raw user_code).0
  unfolding device_code
  device_code-CodesOk oauth_configured body ttl_seconds now raw user_code = ground (
    arith,
    create-CodesOk (purge_expired_device_codes db now)
        (record {
          device_code_hash = c.sha256_hex raw;
          user_code_hash = c.sha256_hex user_code;
          code_challenge = get_or body.code_challenge "";
          expires_at = now + ttl_seconds * 1000;
          current_interval = none;
        })
        now (purge-CodesOk db "" h now),
  )

  bind_device-CodesOk :
      (device_user_code user_id : String) → CodesOk (bind_device c db device_user_code user_id).0
  unfolding bind_device authorize_device_code
  bind_device-CodesOk device_user_code user_id =
      authorize_first-CodesOk (c.sha256_hex device_user_code) user_id db.device_codes h

-- The requests of the device login, as the server gets them.
pub data Request : Type 0 where
  request_code :
      (oauth_configured : Bool) (body : CodeRequest) (ttl_seconds now : ℕ) (raw user_code : String)
      → Request
  finish_sign_in : (device_user_code user_id : String) → Request
  request_token : (body : TokenRequest) (now : ℕ) (fresh : Fresh) → Request

unfoldable pub serve : Crypto → MemoryDb → Request → MemoryDb
serve c db (request_code oauth_configured body ttl_seconds now raw user_code) =
    (device_code c db oauth_configured body ttl_seconds now raw user_code).0
serve c db (finish_sign_in device_user_code user_id) = (bind_device c db device_user_code user_id).0
serve c db (request_token body now fresh) = (poll c db body now fresh).0

unfoldable pub serve_all : Crypto → MemoryDb → List Request → MemoryDb
serve_all c db [] = db
serve_all c db (r ∷ rs) = serve_all c (serve c db r) rs

serve-CodesOk : (c : Crypto) (db : MemoryDb) (r : Request) → CodesOk db → CodesOk (serve c db r)
unfolding serve
serve-CodesOk c db (request_code oauth_configured body ttl_seconds now raw user_code) h =
    device_code-CodesOk c db h oauth_configured body ttl_seconds now raw user_code
serve-CodesOk c db (finish_sign_in device_user_code user_id) h =
    bind_device-CodesOk c db h device_user_code user_id
serve-CodesOk c db (request_token body now fresh) h = poll-CodesOk c db h body now fresh

-- Whatever requests are served and in whatever order, from a table in which every device code has at
-- most two failed verifications and has a user exactly when it is authorized, such a table is left.
pub serve_all-CodesOk :
    (c : Crypto) (db : MemoryDb) (rs : List Request) → CodesOk db → CodesOk (serve_all c db rs)
unfolding serve_all
serve_all-CodesOk c db [] h = h
serve_all-CodesOk c db (r ∷ rs) h = serve_all-CodesOk c (serve c db r) rs (serve-CodesOk c db r h)
