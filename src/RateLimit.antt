-- ===== src/RateLimit.antt =====
-- packages/api/src/ratelimit/memory.ts: the fixed-window limiter that one process keeps in memory. The
-- clock is an argument, in milliseconds.
pub mod Window
pub mod Middleware
pub mod Forgery
use skrun.Base.{
  ℕ, ◌+◌, ◌-◌, ◌/◌, String, Bool, Option, none, some, string_eq, ltb, leb, if◌then◌else◌, length,
}
use skrun.JsMap
use skrun.JsMap.{JsMap, reject}

-- What `check` answers.
pub record RateLimitResult : Type 0 where
  pub success : Bool
  pub limit : ℕ
  pub remaining : ℕ
  pub reset_seconds : ℕ

pub record Entry : Type 0 where
  pub count : ℕ
  pub reset_at : ℕ

pub record MemoryRateLimiter : Type 0 where
  pub window_ms : ℕ
  pub max : ℕ
  pub hits : JsMap String Entry

abbrev pub fresh_entry : ℕ → ℕ → Entry
fresh_entry window_ms now = record { count = 0; reset_at = now + window_ms }

-- The entry that the hit counts in: a new one when there is none or its window is over.
unfoldable pub current : MemoryRateLimiter → String → ℕ → Entry
current l key now = elim (JsMap.get l.hits key) [
  | none ↦ fresh_entry l.window_ms now
  | some entry ↦ if ltb entry.reset_at now then fresh_entry l.window_ms now else entry
]

-- The sweep of a table of more than 10 000 entries.
unfoldable pub cleanup : JsMap String Entry → ℕ → JsMap String Entry
cleanup hits now = if ltb 10000 (length hits) then reject (λ v. ltb v.reset_at now) hits else hits

unfoldable pub check : MemoryRateLimiter → String → ℕ → MemoryRateLimiter × RateLimitResult
check l key now =
    let entry = current l key now in
    let count = entry.count + 1 in
    (
      record l { hits = cleanup (JsMap.set l.hits key (record entry { count = count })) now },
      record {
        success = leb count l.max;
        limit = l.max;
        remaining = l.max - count;
        reset_seconds = (entry.reset_at + 999) / 1000;
      },
    )
