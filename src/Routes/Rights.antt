-- ===== src/Routes/Rights.antt =====
-- What a caller has whom the gates of the registry's routes let pass.
use skrun.Base.{
  ◌≡◌, ◌≢◌, ◌⊎◌, inl, inr, refl, String, true, Option, none, some, string_eq, nat_eq, contains,
  arith, Option-cases, Bool-cases,
}
use skrun.Schema.{Agent, UserContext, KeyContext, Visibility, is_admin, account, is_account}
use skrun.Schema
use skrun.Db.Agents.{get_agent}
use skrun.Access.KeyScope.{
  assert_key_can_push_or_throw, assert_key_scope_or_throw, key_allows_operation,
  key_can_access_agent, is_delegated_key, is_master_credential,
}
use skrun.Access.Master.{IsFullKey, master_iff}
use skrun.Access.Verification.{VerificationPolicy, can_set_verified, admin}
use skrun.Registry.{Outcome, ok, throw}
use skrun.Registry.Service.{RegistryService}
use skrun.Routes.{may_manage, require_master_credential}
use skrun.Routes.Publish.{PushInput, admit_push, admit_verify, push_gate, verify_scope}

pub Outcome-cases :
    {A : Type 0} (m : Outcome A) → ((a : A) × (m ≡ ok a)) ⊎ ((e : _) × (m ≡ throw e))
Outcome-cases (ok a) = inl (a, refl)
Outcome-cases (throw e) = inr (e, refl)

-- No key, or a key with the operation that is account-wide or lists the agent.
abbrev pub KeyCovers : UserContext → Option Agent → String → Type 0
KeyCovers user agent op =
    (user.key ≡ none)
    ⊎ ((key : KeyContext) × (user.key ≡ some key)
        × (contains key.operations op ≡ true)
        × ((key.scope_kind ≡ account)
            ⊎ ((a : Agent) × (agent ≡ some a) × (contains key.agent_ids a.id ≡ true))))

-- No key, or an account-wide key with every operation.
abbrev pub HasMasterKey : UserContext → Type 0
HasMasterKey user = (user.key ≡ none) ⊎ ((key : KeyContext) × (user.key ≡ some key) × IsFullKey key)

abbrev pub MayManage : UserContext → String → Type 0
MayManage user namespace =
    HasMasterKey user × ((namespace ≡ user.namespace) ⊎ (user.role ≡ Schema.admin))

abbrev pub MayVerify : VerificationPolicy → UserContext → Agent → Type 0
MayVerify policy user a =
    ((user.role ≡ Schema.admin) ⊎ (policy ≢ admin) × (a.owner_id ≡ user.id))
    × KeyCovers user (some a) "agent:verify"

pub may_manage-ok :
    (action : String) (user : UserContext) (namespace name : String) {u : Unit {0}}
    → may_manage action user namespace name ≡ ok u
    → MayManage user namespace
unfolding may_manage require_master_credential
may_manage-ok action user namespace name h =
    let master : is_master_credential user ≡ true = ground (arith, h) in
    ((master_iff user).0 master, ground (arith, h))

pub push_gate-ok :
    (user : UserContext) (existing : Option Agent) {u : Unit {0}}
    → push_gate user existing ≡ ok u
    → KeyCovers user existing "agent:push"
unfolding assert_key_can_push_or_throw key_allows_operation is_delegated_key key_can_access_agent
push_gate-ok user existing h = elim (Option-cases user.key) [
  | inl e ↦ inl e
  | inr (key, e) ↦ elim (Option-cases existing) [
    | inl e' ↦ inr (key, e, ground (arith, h), inl (ground (arith, h)))
    | inr (a, e') ↦ inr (key, e, ground (arith, h), ground (arith, h))
  ]
]

pub verify_scope-ok :
    (user : UserContext) (a : Agent) {u : Unit {0}}
    → verify_scope user (some a) ≡ ok u
    → KeyCovers user (some a) "agent:verify"
unfolding assert_key_scope_or_throw key_allows_operation key_can_access_agent
verify_scope-ok user a h = elim (Option-cases user.key) [
  | inl e ↦ inl e
  | inr (key, e) ↦ elim (Bool-cases (is_account key.scope_kind)) [
    | inl e' ↦ inr (key, e, ground (arith, h), inl (ground (arith, e')))
    | inr e' ↦ inr (key, e, ground (arith, h), inr (a, refl, ground (arith, h)))
  ]
]

module _ (decode : String → Option String) where
  pub admit_push-ok :
      (s : RegistryService) (user : UserContext) (namespace name : String) (i : PushInput)
      {notes : Option String}
      → admit_push decode s user namespace name i ≡ ok notes
      → (namespace ≡ user.namespace) × KeyCovers user (get_agent s.db namespace name) "agent:push"
  unfolding admit_push
  admit_push-ok s user namespace name i h =
      let gate : push_gate user (get_agent s.db namespace name) ≡ ok tt = ground (arith, h) in
      (ground (arith, h), push_gate-ok user (get_agent s.db namespace name) gate)

pub admit_verify-ok :
    (policy : VerificationPolicy) (s : RegistryService) (user : UserContext)
    (namespace name : String) (a : Agent) {u : Unit {0}}
    → get_agent s.db namespace name ≡ some a
    → admit_verify policy s user namespace name ≡ ok u
    → MayVerify policy user a
unfolding admit_verify can_set_verified
admit_verify-ok policy s user namespace name a here h = elim (Option-cases user.key) [
  | inl e ↦ (ground (arith, h), inl e)
  | inr (key, e) ↦ (ground (arith, h), verify_scope-ok user a (ground (arith, h, here)))
]
