-- ===== src/Auth.antt =====
-- packages/api/src/auth, packages/api/src/routes/auth.ts and packages/api/src/middleware/auth.ts:
-- who is calling. What node:crypto gives is the record below; the instant, the fresh random values
-- and the settings of the environment are arguments.
pub mod Session
pub mod DeviceLogin
pub mod Middleware
pub mod Csrf
use skrun.Base.{String}

-- SHA-256 of a text, in hexadecimal and in base64url digits.
pub record Crypto : Type 0 where
  pub sha256_hex : String → String
  pub sha256_base64url : String → String
