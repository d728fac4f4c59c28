-- ===== src/Examples/RateLimit.antt =====
-- The limiter's theorem at three requests that forge an address.
use skrun.Base.{◌≡◌, refl, String, none, some, [], ◌∷◌, false, arith, string_discrete}
use skrun.JsMap
use skrun.RateLimit.{MemoryRateLimiter}
use skrun.RateLimit.Middleware.{Request, client_key}
use skrun.RateLimit.Forgery.{let_through, forged_headers}

abbrev from : String → Request
from forged = record { header = λ name. some forged; remote = some "10.0.0.1"; at = 20 }

-- One of two hits is used up.
abbrev limiter : MemoryRateLimiter
limiter = record {
  window_ms = 1000;
  max = 2;
  hits = ("10.0.0.1", record { count = 1; reset_at = 1010 }) ∷ [];
}

forged_headers_example : let_through false none limiter (from "a" ∷ from "b" ∷ from "c" ∷ []) ≡ 1
unfolding client_key JsMap.get string_discrete
forged_headers_example =
    forged_headers false none (from "z") limiter (from "a" ∷ from "b" ∷ from "c" ∷ [])
      (record { count = 1; reset_at = 1010 }) (refl, tt) refl (refl, (refl, (refl, tt)))
      (omega arith, (omega arith, (omega arith, tt)))
