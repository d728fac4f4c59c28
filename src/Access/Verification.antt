-- ===== src/Access/Verification.antt =====
-- packages/api/src/services/verification-policy.ts: who may attest a version, and which runs wait for
-- it. The policy is given parsed; reading it from the environment is not modelled.
use skrun.Base.{
  String, Bool, true, false, not, ◌==◌, string_eq, if◌then◌else◌, ◌≡◌, ◌≢◌, ◌⊎◌, ◌↔◌, arith,
}
use skrun.Schema.{UserContext, UserRole, is_admin}
use skrun.Schema

pub data VerificationPolicy : Type 0 where
  admin owner disabled : VerificationPolicy

abbrev pub is_admin_policy : VerificationPolicy → Bool
is_admin_policy admin = true
is_admin_policy _ = false

unfoldable pub is_run_gated_by_verification : VerificationPolicy → Bool → Bool
is_run_gated_by_verification policy verified =
    if is_admin_policy policy then not verified else false

-- Of the agent, its owner.
unfoldable pub can_set_verified : VerificationPolicy → UserContext → String → Bool
can_set_verified policy user owner_id =
    if is_admin user.role
    then true
    else if is_admin_policy policy
    then false
    else owner_id == user.id

pub data VerificationKind : Type 0 where
  by_admin owner_self : VerificationKind

unfoldable pub verification_kind : UserContext → VerificationKind
verification_kind user = if is_admin user.role then by_admin else owner_self

-- Whoever may set the flag is recorded by what gave the right: `admin` for an administrator, also
-- one who owns the agent, and `owner_self` for a caller who is no administrator, owns the agent and
-- acts under a policy other than `admin`. In every other case the flag may not be set.
pub attestation :
    (policy : VerificationPolicy) (user : UserContext) (owner_id : String)
    → ((can_set_verified policy user owner_id ≡ true)
        × ((user.role ≡ Schema.admin) × (verification_kind user ≡ by_admin)
            ⊎ (policy ≢ admin) × (owner_id ≡ user.id) × (verification_kind user ≡ owner_self)))
      ⊎ ((can_set_verified policy user owner_id ≡ false)
          × (user.role ≢ Schema.admin)
          × ((policy ≡ admin) ⊎ (owner_id ≢ user.id)))
unfolding can_set_verified verification_kind
attestation policy user owner_id = ground arith

-- A run waits for verification exactly under the policy `admin`, for a version that is not verified.
pub gated_iff :
    (policy : VerificationPolicy) (verified : Bool)
    → (is_run_gated_by_verification policy verified ≡ true)
      ↔ ((policy ≡ admin) × (verified ≡ false))
unfolding is_run_gated_by_verification
gated_iff policy verified = (λ h. ground arith, λ h. ground arith)
