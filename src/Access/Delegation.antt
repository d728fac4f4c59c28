-- ===== src/Access/Delegation.antt =====
-- What the gates of key-scope.ts do for a key that was restricted to some agents, and for a master
-- credential.
use skrun.Base.{
  String, true, none, some, [], string_eq, nat_eq, contains, ◌≡◌, ◌⊎◌, ◌↔◌, inl, inr, arith,
  Option-cases,
}
use skrun.Schema.{Agent, KeyContext, UserContext, account, agents}
use skrun.Registry.{Outcome, ok, throw}
use skrun.Access.KeyScope.{
  key_allows_operation, key_can_access_agent, is_delegated_key, is_master_credential,
  assert_key_scope_or_throw, assert_key_can_push_or_throw, assert_master_credential_or_throw,
  assert_key_can_read_agent_or_throw, assert_not_delegated_or_throw,
}

-- The one shape in which a gate refuses.
abbrev pub IsForbidden : Outcome (Unit {0}) → Type 0
IsForbidden (ok _) = ⊥
IsForbidden (throw e) = (e.code ≡ "KEY_SCOPE_FORBIDDEN") × (e.status ≡ 403)

-- R1 passes exactly for a credential with no key, or a key that lists the operation and is
-- account-wide or lists the agent.
pub key_scope_iff :
    (user : UserContext) (agent : Agent) (op : String)
    → (assert_key_scope_or_throw user agent op ≡ ok tt) ↔ (
        (user.key ≡ none)
        ⊎ ((key : KeyContext) × (user.key ≡ some key)
            × (contains key.operations op ≡ true)
            × ((key.scope_kind ≡ account) ⊎ (contains key.agent_ids agent.id ≡ true))))
unfolding assert_key_scope_or_throw key_allows_operation key_can_access_agent
key_scope_iff user agent op = (to, λ h. ground arith)
  where
    to :
        assert_key_scope_or_throw user agent op ≡ ok tt
        → (user.key ≡ none)
          ⊎ ((key : KeyContext) × (user.key ≡ some key)
              × (contains key.operations op ≡ true)
              × ((key.scope_kind ≡ account) ⊎ (contains key.agent_ids agent.id ≡ true)))
    to h = elim (Option-cases user.key) [
      | inl e ↦ inl e
      | inr (key, e) ↦ inr (key, e, ground arith, ground arith)
    ]

-- A key restricted to agents that has no grant left is refused by every gate: no run, push, verify,
-- account management, metadata or source, of any agent.
pub grantless-IsForbidden :
    (user : UserContext) (key : KeyContext) (agent : Agent) (op : String)
    → user.key ≡ some key
    → key.scope_kind ≡ agents
    → key.agent_ids ≡ []
    → IsForbidden (assert_key_scope_or_throw user agent op)
      × IsForbidden (assert_key_can_push_or_throw user none)
      × IsForbidden (assert_key_can_push_or_throw user (some agent))
      × IsForbidden (assert_master_credential_or_throw user)
      × IsForbidden (assert_key_can_read_agent_or_throw user agent)
      × IsForbidden (assert_not_delegated_or_throw user)
unfolding assert_key_scope_or_throw assert_key_can_push_or_throw assert_master_credential_or_throw
    assert_key_can_read_agent_or_throw assert_not_delegated_or_throw key_can_access_agent
    is_delegated_key is_master_credential key_allows_operation
grantless-IsForbidden user key agent op e k g = ground arith
