-- ===== src/Routes/Authority.antt =====
-- Who can change the registry through its routes.
use skrun.Base.{
  ℕ, ◌≡◌, ◌⊎◌, inl, inr, refl, String, Bool, Option, none, some, string_eq, nat_eq, arith,
  Option-cases,
}
use skrun.Schema.{Agent, UserContext, Visibility}
use skrun.Db.Agents.{get_agent}
use skrun.Access.Verification.{VerificationPolicy}
use skrun.Registry.Service.{Digest, RegistryService}
use skrun.Registry.Remove.{set_version_verified}
use skrun.Routes.{JsonBody, body, may_manage}
use skrun.Routes.Rights.{
  Outcome-cases, KeyCovers, MayManage, MayVerify, may_manage-ok, admit_push-ok, admit_verify-ok,
}
use skrun.Routes.Publish.{PushInput, post_push, patch_verify, admit_push, admit_verify}
use skrun.Routes.Manage.{patch_visibility, delete_version_route, delete_agent_route}

-- The requests that may write.
pub data Mutation : Type 0 where
  pushing : PushInput → Mutation
  verifying : String → JsonBody (Option Bool) → Mutation
  setting_visibility : JsonBody (Option Visibility) → ℕ → Mutation
  deleting_version : String → Mutation
  deleting_agent : Mutation

-- The caller's right to a request for an agent.
abbrev pub Permitted :
    VerificationPolicy → RegistryService → UserContext → String → String → Mutation → Type 0
Permitted policy s user namespace name (pushing i) =
    (namespace ≡ user.namespace) × KeyCovers user (get_agent s.db namespace name) "agent:push"
Permitted policy s user namespace name (verifying version input) =
    (a : Agent) × (get_agent s.db namespace name ≡ some a) × MayVerify policy user a
Permitted policy s user namespace name (setting_visibility input now) = MayManage user namespace
Permitted policy s user namespace name (deleting_version version) = MayManage user namespace
Permitted policy s user namespace name deleting_agent = MayManage user namespace

set_version_verified-absent :
    (s : RegistryService) (namespace name version : String) (verified : Bool)
    → get_agent s.db namespace name ≡ none
    → (set_version_verified s namespace name version verified).0 ≡ s
unfolding set_version_verified
set_version_verified-absent s namespace name version verified absent =
    rw (set_version_verified, absent) refl

patch_verify-absent :
    (policy : VerificationPolicy) (s : RegistryService) (user : UserContext)
    (namespace name version : String) (input : JsonBody (Option Bool))
    → get_agent s.db namespace name ≡ none
    → (patch_verify policy s user namespace name version input).0 ≡ s
unfolding patch_verify
patch_verify-absent policy s user namespace name version (body (some verified)) absent =
    ground (arith, set_version_verified-absent s namespace name version verified absent)
patch_verify-absent policy s user namespace name version _ absent = ground arith

verify_authorized :
    (policy : VerificationPolicy) (s : RegistryService) (user : UserContext)
    (namespace name version : String) (input : JsonBody (Option Bool))
    → Permitted policy s user namespace name (verifying version input)
      ⊎ ((patch_verify policy s user namespace name version input).0 ≡ s)
unfolding patch_verify
verify_authorized policy s user namespace name version input =
    elim (Outcome-cases (admit_verify policy s user namespace name)) [
      | inr (e, h) ↦ inr (rw (patch_verify, h) refl)
      | inl (u, h) ↦ elim (Option-cases (get_agent s.db namespace name)) [
        | inl absent ↦ inr (patch_verify-absent policy s user namespace name version input absent)
        | inr (a, here) ↦ inl (a, here, admit_verify-ok policy s user namespace name a here h)
      ]
    ]

push_authorized :
    (decode : String → Option String) (d : Digest) (policy : VerificationPolicy)
    (s : RegistryService) (user : UserContext) (namespace name : String) (i : PushInput)
    → Permitted policy s user namespace name (pushing i)
      ⊎ ((post_push decode d s user namespace name i).0 ≡ s)
unfolding post_push
push_authorized decode d policy s user namespace name i =
    elim (Outcome-cases (admit_push decode s user namespace name i)) [
      | inr (e, h) ↦ inr (rw (post_push, h) refl)
      | inl (notes, h) ↦ inl (admit_push-ok decode s user namespace name i h)
    ]

visibility_authorized :
    (s : RegistryService) (user : UserContext) (namespace name : String)
    (input : JsonBody (Option Visibility)) (now : ℕ)
    → MayManage user namespace ⊎ ((patch_visibility s user namespace name input now).0 ≡ s)
unfolding patch_visibility
visibility_authorized s user namespace name input now =
    elim (Outcome-cases (may_manage "change visibility" user namespace name)) [
      | inr (e, h) ↦ inr (rw (patch_visibility, h) refl)
      | inl (u, h) ↦ inl (may_manage-ok "change visibility" user namespace name h)
    ]

delete_version_authorized :
    (s : RegistryService) (user : UserContext) (namespace name version : String)
    → MayManage user namespace ⊎ ((delete_version_route s user namespace name version).0 ≡ s)
unfolding delete_version_route
delete_version_authorized s user namespace name version =
    elim (Outcome-cases (may_manage "delete versions" user namespace name)) [
      | inr (e, h) ↦ inr (rw (delete_version_route, h) refl)
      | inl (u, h) ↦ inl (may_manage-ok "delete versions" user namespace name h)
    ]

delete_agent_authorized :
    (s : RegistryService) (user : UserContext) (namespace name : String)
    → MayManage user namespace ⊎ ((delete_agent_route s user namespace name).0 ≡ s)
unfolding delete_agent_route
delete_agent_authorized s user namespace name =
    elim (Outcome-cases (may_manage "delete agents" user namespace name)) [
      | inr (e, h) ↦ inr (rw (delete_agent_route, h) refl)
      | inl (u, h) ↦ inl (may_manage-ok "delete agents" user namespace name h)
    ]

-- The service after the handler of a request.
unfoldable pub after :
    (String → Option String)
    → Digest
    → VerificationPolicy
    → RegistryService
    → UserContext
    → String
    → String
    → Mutation
    → RegistryService
after decode d policy s user namespace name (pushing i) =
    (post_push decode d s user namespace name i).0
after decode d policy s user namespace name (verifying version input) =
    (patch_verify policy s user namespace name version input).0
after decode d policy s user namespace name (setting_visibility input now) =
    (patch_visibility s user namespace name input now).0
after decode d policy s user namespace name (deleting_version version) =
    (delete_version_route s user namespace name version).0
after decode d policy s user namespace name deleting_agent =
    (delete_agent_route s user namespace name).0

-- A request of any kind either has its caller's right or leaves the registry as it was: a push needs
-- the caller's own namespace and a key, if any, that may push to that agent; an attestation needs an
-- agent that the policy lets the caller attest and a key, if any, that may verify it; the visibility
-- and the deletions need a master credential and the caller's namespace or an administrator.
pub mutation_authorized :
    (decode : String → Option String) (d : Digest) (policy : VerificationPolicy)
    (s : RegistryService) (user : UserContext) (namespace name : String) (m : Mutation)
    → Permitted policy s user namespace name m ⊎ (after decode d policy s user namespace name m ≡ s)
unfolding after
mutation_authorized decode d policy s user namespace name (pushing i) =
    push_authorized decode d policy s user namespace name i
mutation_authorized decode d policy s user namespace name (verifying version input) =
    verify_authorized policy s user namespace name version input
mutation_authorized decode d policy s user namespace name (setting_visibility input now) =
    visibility_authorized s user namespace name input now
mutation_authorized decode d policy s user namespace name (deleting_version version) =
    delete_version_authorized s user namespace name version
mutation_authorized decode d policy s user namespace name deleting_agent =
    delete_agent_authorized s user namespace name
