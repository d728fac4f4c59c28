-- ===== src/Auth/DeviceLogin/Poll.antt =====
-- When a poll of the device login is answered with a key, and what that leaves.
use skrun.Base.{
  ℕ, String, ◌≡◌, ◌≢◌, ◌↔◌, refl, sym, ap, ◌∙◌, Bool, true, false, none, some, ◌==◌, string_eq, ltb,
  get_or, inl, inr, Option-cases, arith,
}
use skrun.JsMap
use skrun.JsMap.{JsMap, Distinct}
use skrun.Schema.{DeviceCode, User, is_pending}
use skrun.Db.{MemoryDb}
use skrun.Db.DeviceCodes.{get_device_code_by_device_hash, record_device_code_poll}
use skrun.Db.ApiKeys.{get_user_by_id}
use skrun.Auth.{Crypto}
use skrun.Auth.DeviceLogin.{
  Answer, error, token, code_issued, sign_in, device_error_page, device_done_page, TokenRequest,
  Fresh, count_attempt, exchange, mint, poll, verify_challenge, is_too_fast,
}

-- The conditions under which a poll earns a key.
pub record Earned (c : Crypto) (db : MemoryDb) (body : TokenRequest) (now : ℕ) : Type 0 where
  pub row : DeviceCode
  pub user_id : String
  pub user : User
  pub named : (get_or body.device_code "" == "") ≡ false
  pub found : JsMap.get db.device_codes (c.sha256_hex (get_or body.device_code "")) ≡ some row
  pub alive : ltb row.expires_at now ≡ false
  pub paced : is_too_fast row now ≡ false
  pub approved : is_pending row.status ≡ false
  pub verified : verify_challenge c (get_or body.code_verifier "") row.code_challenge ≡ true
  pub bound : row.user_id ≡ some user_id
  pub present : JsMap.get db.users user_id ≡ some user

abbrev pub is_token : Answer → Bool
is_token (token key username) = true
is_token (error code message) = false
is_token (code_issued device_code user_code interval) = false
is_token (sign_in user_code) = false
is_token device_error_page = false
is_token device_done_page = false

record_poll-users :
    (db : MemoryDb) (hash : String) (slow_down : Bool) (now : ℕ)
    → (record_device_code_poll db hash slow_down now).users ≡ db.users
unfolding record_device_code_poll
record_poll-users db hash slow_down now = elim (Option-cases (JsMap.get db.device_codes hash)) [
  | inl e ↦ rw (record_device_code_poll, e) refl
  | inr (dc, e) ↦ rw (record_device_code_poll, e) refl
]

module _ (c : Crypto) (db : MemoryDb) (body : TokenRequest) (now : ℕ) (fresh : Fresh) where
  pub poll-Earned :
      (e : Earned c db body now)
      → let hash = c.sha256_hex (get_or body.device_code "") in
        poll c db body now fresh
        ≡ mint c (record_device_code_poll db hash false now) hash e.user_id e.user now fresh
  unfolding poll exchange get_device_code_by_device_hash get_user_by_id
  poll-Earned e = ground (
    arith,
    e.named,
    e.found,
    e.alive,
    e.paced,
    e.approved,
    e.verified,
    e.bound,
    e.present,
    record_poll-users db (c.sha256_hex (get_or body.device_code "")) false now,
  )

  exchange_token :
      (polled : MemoryDb) (hash : String) (row : DeviceCode)
      → is_token (exchange c polled hash row now fresh).1 ≡ true
      → (id : String) × (u : User) × (row.user_id ≡ some id) × (JsMap.get polled.users id ≡ some u)
  unfolding exchange get_user_by_id
  exchange_token polled hash row t = elim (Option-cases row.user_id) [
    | inl e ↦ cc (rw (exchange, e) at t)
    | inr (id, e) ↦ elim (Option-cases (JsMap.get polled.users id)) [
      | inl n ↦ cc (rw (exchange, e, n) at t)
      | inr (u, f) ↦ (id, u, e, f)
    ]
  ]

  count_attempt_refused :
      (polled : MemoryDb) (hash : String) → is_token (count_attempt polled hash).1 ≡ false
  unfolding count_attempt
  count_attempt_refused polled hash = refl

  passed :
      (row : DeviceCode)
      → let code = get_or body.device_code "" in
        let hash = c.sha256_hex code in
        is_token (poll c db body now fresh).1 ≡ true
        → JsMap.get db.device_codes hash ≡ some row
        → ((code == "") ≡ false)
          × (ltb row.expires_at now ≡ false)
          × (is_too_fast row now ≡ false)
          × (is_pending row.status ≡ false)
          × (verify_challenge c (get_or body.code_verifier "") row.code_challenge ≡ true)
          × (is_token (exchange c (record_device_code_poll db hash false now) hash row now fresh).1
              ≡ true)
  unfolding poll get_device_code_by_device_hash
  passed row t found = ground (
    arith,
    count_attempt_refused
        (record_device_code_poll db (c.sha256_hex (get_or body.device_code "")) false now)
        (c.sha256_hex (get_or body.device_code "")),
  )

  known :
      is_token (poll c db body now fresh).1 ≡ true
      → JsMap.get db.device_codes (c.sha256_hex (get_or body.device_code "")) ≢ none
  unfolding poll get_device_code_by_device_hash
  known t n = ground arith

  token-Earned : is_token (poll c db body now fresh).1 ≡ true → Earned c db body now
  token-Earned t =
      let hash = c.sha256_hex (get_or body.device_code "") in
      elim (Option-cases (JsMap.get db.device_codes hash)) [
        | inl e ↦ ground (arith, known t e)
        | inr (row, e) ↦
            let (named, alive, paced, approved, verified, last) = passed row t e in
            let (user_id, user, bound, present) =
              exchange_token (record_device_code_poll db hash false now) hash row last in
            record {
              row = row;
              user_id = user_id;
              user = user;
              named = named;
              found = e;
              alive = alive;
              paced = paced;
              approved = approved;
              verified = verified;
              bound = bound;
              present =
                  ap (λ users. JsMap.get users user_id) (sym (record_poll-users db hash false now))
                  ∙ present;
            }
      ]

  Earned-token : Earned c db body now → is_token (poll c db body now fresh).1 ≡ true
  unfolding mint
  Earned-token e = rw (poll-Earned e) refl

-- A poll is answered with a key exactly when it names an unexpired code that a present user has
-- approved, comes after the interval, and its verifier hashes to the challenge of the code.
pub token_iff :
    (c : Crypto) (db : MemoryDb) (body : TokenRequest) (now : ℕ) (fresh : Fresh)
    → (is_token (poll c db body now fresh).1 ≡ true) ↔ Earned c db body now
token_iff c db body now fresh = (token-Earned c db body now fresh, Earned-token c db body now fresh)
