-- ===== src/Db/DeviceCodes.antt =====
-- memory.ts, the device-login codes and the browser sessions.
use skrun.Base.{
  ℕ, ◌+◌, String, Bool, true, false, ◌&&◌, Option, none, some, [], ◌∷◌, ◌==◌, string_eq, ltb, find,
  if◌then◌else◌, get_or,
}
use skrun.JsMap
use skrun.JsMap.{JsMap, values, reject}
use skrun.Schema.{DeviceCode, pending, authorized, is_pending, Session}
use skrun.Db.{MemoryDb}

pub record NewDeviceCode : Type 0 where
  pub device_code_hash : String
  pub user_code_hash : String
  pub code_challenge : String
  pub expires_at : ℕ
  pub current_interval : Option ℕ

unfoldable pub create_device_code : MemoryDb → NewDeviceCode → ℕ → MemoryDb
create_device_code db row now = record db {
  device_codes = JsMap.set db.device_codes row.device_code_hash (record {
    device_code_hash = row.device_code_hash;
    user_code_hash = row.user_code_hash;
    code_challenge = row.code_challenge;
    status = pending;
    user_id = none;
    current_interval = get_or row.current_interval 5;
    attempt_count = 0;
    created_at = now;
    expires_at = row.expires_at;
    last_polled_at = none;
  });
}

unfoldable pub get_device_code_by_device_hash : MemoryDb → String → Option DeviceCode
get_device_code_by_device_hash db device_code_hash = JsMap.get db.device_codes device_code_hash

unfoldable pub get_device_code_by_user_hash : MemoryDb → String → Option DeviceCode
get_device_code_by_user_hash db user_code_hash =
    find (λ dc. dc.user_code_hash == user_code_hash) (values db.device_codes)

-- The loop of `authorizeDeviceCode`: the first pending row with the code is bound to the user.
unfoldable pub authorize_first :
    String → String → JsMap String DeviceCode → JsMap String DeviceCode × Bool
authorize_first user_code_hash user_id [] = ([], false)
authorize_first user_code_hash user_id ((hash, dc) ∷ m) =
    let (m', done) = authorize_first user_code_hash user_id m in
    if dc.user_code_hash == user_code_hash && is_pending dc.status
    then ((hash, record dc { status = authorized; user_id = some user_id }) ∷ m, true)
    else ((hash, dc) ∷ m', done)

unfoldable pub authorize_device_code : MemoryDb → String → String → MemoryDb × Bool
authorize_device_code db user_code_hash user_id =
    let (m, done) = authorize_first user_code_hash user_id db.device_codes in
    (record db { device_codes = m }, done)

unfoldable pub record_device_code_poll : MemoryDb → String → Bool → ℕ → MemoryDb
record_device_code_poll db hash slow_down now = elim (JsMap.get db.device_codes hash) [
  | none ↦ db
  | some dc ↦ record db {
    device_codes = JsMap.set db.device_codes hash (record dc {
      last_polled_at = some now;
      current_interval = if slow_down then dc.current_interval + 5 else dc.current_interval;
    });
  }
]

unfoldable pub increment_device_code_attempts : MemoryDb → String → MemoryDb × ℕ
increment_device_code_attempts db hash = elim (JsMap.get db.device_codes hash) [
  | none ↦ (db, 0)
  | some dc ↦ (
    record db {
      device_codes =
          JsMap.set db.device_codes hash (record dc { attempt_count = dc.attempt_count + 1 });
    },
    dc.attempt_count + 1,
  )
]

unfoldable pub consume_device_code : MemoryDb → String → MemoryDb
consume_device_code db hash = record db { device_codes = JsMap.delete db.device_codes hash }

unfoldable pub purge_expired_device_codes : MemoryDb → ℕ → MemoryDb
purge_expired_device_codes db now = record db {
  device_codes = reject (λ dc. ltb dc.expires_at now) db.device_codes;
}

pub record NewSession : Type 0 where
  pub id_hash : String
  pub user_id : String
  pub expires_at : ℕ

unfoldable pub create_session : MemoryDb → NewSession → ℕ → MemoryDb
create_session db row now = record db {
  sessions = JsMap.set db.sessions row.id_hash (record {
    id_hash = row.id_hash;
    user_id = row.user_id;
    created_at = now;
    expires_at = row.expires_at;
  });
}

unfoldable pub get_session : MemoryDb → String → Option Session
get_session db id_hash = JsMap.get db.sessions id_hash

unfoldable pub delete_session : MemoryDb → String → MemoryDb
delete_session db id_hash = record db { sessions = JsMap.delete db.sessions id_hash }

unfoldable pub purge_expired_sessions : MemoryDb → ℕ → MemoryDb
purge_expired_sessions db now = record db {
  sessions = reject (λ s. ltb s.expires_at now) db.sessions;
}
