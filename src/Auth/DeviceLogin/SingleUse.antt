-- ===== src/Auth/DeviceLogin/SingleUse.antt =====
-- What a poll that earned a key leaves: the key, and no code.
use skrun.Base.{
  ℕ, String, ◌≡◌, refl, Bool, false, none, some, ◌==◌, string_eq, get_or, inl, inr, Option-cases,
  arith,
}
use skrun.JsMap
use skrun.JsMap.{JsMap, Distinct}
use skrun.JsMap.Laws.{get-delete_self, set-Distinct}
use skrun.Schema.{User}
use skrun.Db.{MemoryDb}
use skrun.Db.DeviceCodes.{
  get_device_code_by_device_hash, record_device_code_poll, consume_device_code,
}
use skrun.Db.ApiKeys.{create_api_key, get_api_key_by_hash, api_key_row}
use skrun.Db.ApiKeys.Index.{get-create_api_key}
use skrun.Auth.{Crypto}
use skrun.Auth.DeviceLogin.{
  token, generate_api_key, TokenRequest, Fresh, login_key, mint, poll, expired_token,
}
use skrun.Auth.DeviceLogin.Poll.{Earned, poll-Earned}

record_poll-Distinct :
    (db : MemoryDb) (hash : String) (slow_down : Bool) (now : ℕ)
    → Distinct db.device_codes
    → Distinct (record_device_code_poll db hash slow_down now).device_codes
unfolding record_device_code_poll
record_poll-Distinct db hash slow_down now d =
    elim (Option-cases (JsMap.get db.device_codes hash)) [
      | inl e ↦ rw (record_device_code_poll, e) d
      | inr (dc, e) ↦ rw (record_device_code_poll, e) (set-Distinct db.device_codes hash _ d)
    ]

module _ (c : Crypto) (polled : MemoryDb) (hash user_id : String) (user : User) (now : ℕ)
    (fresh : Fresh) where
  mint-key :
      get_api_key_by_hash
        (mint c polled hash user_id user now fresh).0
        (c.sha256_hex (generate_api_key c fresh.random).key)
      ≡ some (api_key_row (login_key c user_id now fresh) now fresh.uuid)
  unfolding mint consume_device_code get_api_key_by_hash
  mint-key = get-create_api_key polled (login_key c user_id now fresh) now fresh.uuid

  mint-consumed :
      Distinct polled.device_codes
      → JsMap.get (mint c polled hash user_id user now fresh).0.device_codes hash ≡ none
  unfolding mint create_api_key consume_device_code
  mint-consumed d = get-delete_self polled.device_codes hash d

  poll_consumed :
      (db : MemoryDb) (body : TokenRequest) (later : ℕ) (other : Fresh)
      → (get_or body.device_code "" == "") ≡ false
      → JsMap.get db.device_codes (c.sha256_hex (get_or body.device_code "")) ≡ none
      → (poll c db body later other).1 ≡ expired_token
  unfolding poll get_device_code_by_device_hash
  poll_consumed db body later other named gone = ground arith

-- A poll that has earned a key answers it with the user's name and leaves its row, whose owner is the
-- user that approved the code, under its hash; every later poll with the same device code is
-- answered `expired_token`.
pub Earned-once :
    (c : Crypto) (db : MemoryDb) (body : TokenRequest) (now : ℕ) (fresh : Fresh)
    → Distinct db.device_codes
    → (e : Earned c db body now) → (again : TokenRequest) (later : ℕ) (other : Fresh)
    → again.device_code ≡ body.device_code
    → let (db', answer) = poll c db body now fresh in
      let key = (generate_api_key c fresh.random).key in
      (answer ≡ token key e.user.username)
      × (get_api_key_by_hash db' (c.sha256_hex key)
          ≡ some (api_key_row (login_key c e.user_id now fresh) now fresh.uuid))
      × ((poll c db' again later other).1 ≡ expired_token)
unfolding mint
Earned-once c db body now fresh d e again later other same =
    let hash = c.sha256_hex (get_or body.device_code "") in
    let polled = record_device_code_poll db hash false now in
    rw (poll-Earned c db body now fresh e) (
      refl,
      mint-key c polled hash e.user_id e.user now fresh,
      poll_consumed c polled hash e.user_id e.user now fresh
          (mint c polled hash e.user_id e.user now fresh).0 again later other (rw same e.named)
          (rw same (
            mint-consumed c polled hash e.user_id e.user now fresh
              (record_poll-Distinct db hash false now d))),
    )
