-- ===== src/Registry.antt =====
-- `RegistryError` of packages/api/src/services/registry.ts, and code that throws it, as a result; the
-- service itself is in the child Service.
pub mod Service
pub mod Push
pub mod Remove
pub mod Pushed
pub mod RoundTrip
pub mod Removal
pub mod Numbers
pub mod Cleanup
pub mod Metadata
use skrun.Base.{ℕ, String}

-- The status is one of 400, 403, 404, 409 and 500.
pub record RegistryError : Type 0 where
  pub code : String
  pub message : String
  pub status : ℕ

pub data Outcome {ℓ} (A : Type ℓ) : Type ℓ where
  ok : A → Outcome A
  throw : RegistryError → Outcome A

infixl 5 ◌>>=◌ ◌>>◌
abbrev pub ◌>>=◌ {ℓ κ} : {A : Type ℓ} {B : Type κ} → Outcome A → (A → Outcome B) → Outcome B
ok a >>= f = f a
throw e >>= f = throw e

abbrev pub ◌>>◌ {ℓ} : {B : Type ℓ} → Outcome (Unit {0}) → Outcome B → Outcome B
m >> k = m >>= λ _. k
