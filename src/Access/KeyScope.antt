-- ===== src/Access/KeyScope.antt =====
-- packages/api/src/services/key-scope.ts: what the API key that authenticated a request permits.
use skrun.Base.{
  String, Bool, true, false, not, ◌&&◌, Option, none, some, List, [], ◌∷◌, ◌++◌, ◌==◌, string_eq,
  nat_eq, contains, all, length, if◌then◌else◌, template,
}
use skrun.Schema.{Agent, KeyContext, UserContext, is_account, api_key_default_scopes}
use skrun.Registry.{Outcome, ok, throw}

-- `new Set(list)`: each element once, in the order of its first occurrence.
abbrev pub set_add : List String → String → List String
set_add seen s = if contains seen s then seen else seen ++ s ∷ []

unfoldable pub set_of : List String → List String → List String
set_of seen [] = seen
set_of seen (s ∷ l) = set_of (set_add seen s) l

abbrev pub full_operation_set : List String
full_operation_set = api_key_default_scopes

abbrev pub throw_key_scope {ℓ} : {A : Type ℓ} → String → Outcome A
throw_key_scope message =
    throw (record { code = "KEY_SCOPE_FORBIDDEN"; message = message; status = 403 })

abbrev pub agent_label : Agent → String
agent_label agent = template (agent.namespace ∷ "/" ∷ agent.name ∷ [])

unfoldable pub key_allows_operation : Option KeyContext → String → Bool
key_allows_operation none op = true
key_allows_operation (some key) op = contains key.operations op

unfoldable pub key_can_access_agent : Option KeyContext → Agent → Bool
key_can_access_agent none agent = true
key_can_access_agent (some key) agent =
    if is_account key.scope_kind then true else contains key.agent_ids agent.id

abbrev key_is_delegated : Option KeyContext → Bool
key_is_delegated none = false
key_is_delegated (some key) = not (is_account key.scope_kind)

unfoldable pub is_delegated_key : UserContext → Bool
is_delegated_key user = key_is_delegated user.key

abbrev pub key_is_master : Option KeyContext → Bool
key_is_master none = true
key_is_master (some key) =
    let ops = set_of [] key.operations in
    if not (is_account key.scope_kind)
    then false
    else length ops == length full_operation_set && all (contains full_operation_set) ops

unfoldable pub is_master_credential : UserContext → Bool
unfolding set_of
is_master_credential user = key_is_master user.key

-- R1
unfoldable pub assert_key_scope_or_throw : UserContext → Agent → String → Outcome (Unit {0})
assert_key_scope_or_throw user agent op =
    if not (key_allows_operation user.key op)
    then throw_key_scope (template ("API key is not permitted to perform '" ∷ op ∷ "'." ∷ []))
    else if not (key_can_access_agent user.key agent)
    then throw_key_scope
        (template ("API key is not scoped for agent " ∷ agent_label agent ∷ "." ∷ []))
    else ok tt

-- R1 for a push, whose agent may be new (`none`).
unfoldable pub assert_key_can_push_or_throw : UserContext → Option Agent → Outcome (Unit {0})
assert_key_can_push_or_throw user agent =
    if not (key_allows_operation user.key "agent:push")
    then throw_key_scope "API key is not permitted to perform 'agent:push'."
    else elim agent [
      | none ↦
          if is_delegated_key user
          then throw_key_scope "A resource-scoped API key cannot create a new agent."
          else ok tt
      | some a ↦
          if not (key_can_access_agent user.key a)
          then throw_key_scope
              (template ("API key is not scoped for agent " ∷ agent_label a ∷ "." ∷ []))
          else ok tt
    ]

-- R2
unfoldable pub assert_master_credential_or_throw : UserContext → Outcome (Unit {0})
assert_master_credential_or_throw user =
    if not (is_master_credential user)
    then throw_key_scope "This action requires an account-wide API key (or a session / dev-token)."
    else ok tt

-- R3, metadata
unfoldable pub assert_key_can_read_agent_or_throw : UserContext → Agent → Outcome (Unit {0})
assert_key_can_read_agent_or_throw user agent =
    if is_delegated_key user && not (key_can_access_agent user.key agent)
    then throw_key_scope
        (template ("API key is not scoped for agent " ∷ agent_label agent ∷ "." ∷ []))
    else ok tt

-- R3, source and history
unfoldable pub assert_not_delegated_or_throw : UserContext → Outcome (Unit {0})
assert_not_delegated_or_throw user =
    if is_delegated_key user
    then throw_key_scope "This endpoint is not available to a resource-scoped API key."
    else ok tt
