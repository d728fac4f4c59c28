-- ===== src/Routes/LlmKeys.antt =====
-- packages/api/src/routes/agent-llm-keys.ts: the routes by which a creator manages the LLM keys of an
-- agent. The store is the database; the parsed body is an argument.
use skrun.Base.{
  ℕ, ◌≡◌, ◌∙◌, inl, inr, refl, String, Bool, true, false, not, ◌&&◌, ◌||◌, Option, none, some, List,
  [], ◌∷◌, ◌==◌, string_eq, if◌then◌else◌, template, length, arith, nat_eq,
}
use skrun.Schema.{
  Agent, AgentLlmKeyInfo, AgentLlmKeyPolicy, open_policy, creator_only, UserContext, is_admin,
}
use skrun.Storage.{Buffer}
use skrun.Db.{MemoryDb}
use skrun.Db.Agents.{get_agent, set_llm_key_policy}
use skrun.Access.KeyScope.{is_master_credential}
use skrun.Access.Master.{master_iff}
use skrun.Registry.{Outcome, ok, throw, ◌>>◌, RegistryError}
use skrun.Secrets.{KeyProvider, Attached, attach_creator_key, remove_creator_key, list_creator_keys}
use skrun.Routes.{
  Reply, reply, refused, uncaught, dispatch, JsonBody, not_json, null_body, body, invalid_request,
  forbidden, is_path_segment, require_master_credential,
}
use skrun.Routes.Rights.{Outcome-cases, MayManage}

unfoldable pub valid_agent_path : String → String → Outcome (Unit {0})
valid_agent_path namespace name =
    if not (is_path_segment namespace) || not (is_path_segment name)
    then throw (record {
      code = "INVALID_AGENT_NAME";
      message = "namespace and name must be lowercase kebab-case (a-z, 0-9, hyphen, ≤64).";
      status = 400;
    })
    else ok tt

abbrev pub may_manage_keys : UserContext → String → Outcome (Unit {0})
may_manage_keys user namespace =
    if not (namespace == user.namespace) && not (is_admin user.role)
    then throw (
        forbidden (
          template
            ("You don't have permission to manage agents in namespace '" ∷ namespace ∷ "'." ∷ [])))
    else ok tt

abbrev pub found_agent : MemoryDb → String → String → Outcome Agent
found_agent db namespace name = elim (get_agent db namespace name) [
  | none ↦ throw (record {
    code = "AGENT_NOT_FOUND";
    message = template ("Agent " ∷ namespace ∷ "/" ∷ name ∷ " not found." ∷ []);
    status = 404;
  })
  | some agent ↦ ok agent
]

unfoldable pub owned_agent : MemoryDb → UserContext → String → String → Outcome Agent
unfolding valid_agent_path
owned_agent db user namespace name =
    valid_agent_path namespace name
    >> (require_master_credential user
        >> (may_manage_keys user namespace >> found_agent db namespace name))

-- The checks that come before the agent is read.
abbrev key_gate : UserContext → String → String → Outcome (Unit {0})
key_gate user namespace name =
    valid_agent_path namespace name
    >> (require_master_credential user >> may_manage_keys user namespace)

owned_agent-gate :
    (db : MemoryDb) (user : UserContext) (namespace name : String)
    → owned_agent db user namespace name
      ≡ (key_gate user namespace name >> found_agent db namespace name)
unfolding owned_agent valid_agent_path require_master_credential
owned_agent-gate db user namespace name = ground arith

key_gate-ok :
    (user : UserContext) (namespace name : String) {u : Unit {0}}
    → key_gate user namespace name ≡ ok u
    → MayManage user namespace
unfolding valid_agent_path require_master_credential
key_gate-ok user namespace name h =
    let master : is_master_credential user ≡ true = ground (arith, h) in
    ((master_iff user).0 master, ground (arith, h))

-- The error for a caller who may not manage the agents of a namespace: it does not depend on the database.
unmanaged_throws :
    (user : UserContext) (namespace name : String)
    → ¬ MayManage user namespace
    → (e : RegistryError) × ((db : MemoryDb) → owned_agent db user namespace name ≡ throw e)
unmanaged_throws user namespace name h = elim (Outcome-cases (key_gate user namespace name)) [
  | inl (u, passed) ↦ absurd (h (key_gate-ok user namespace name passed))
  | inr (e, stopped) ↦ (e, λ db. owned_agent-gate db user namespace name ∙ rw stopped refl)
]

pub record KeyList : Type 0 where
  pub policy : AgentLlmKeyPolicy
  pub keys : List AgentLlmKeyInfo

pub record PolicyReply : Type 0 where
  pub policy : AgentLlmKeyPolicy
  pub warning : Option String

abbrev pub is_creator_only : AgentLlmKeyPolicy → Bool
is_creator_only creator_only = true
is_creator_only open_policy = false

abbrev pub no_key_warning : String
no_key_warning =
    "No creator LLM key is attached — runs will fail unless a caller provides a key or a server key is configured."

-- `updated?.llm_key_policy ?? body.policy`
abbrev pub policy_after : Option Agent → AgentLlmKeyPolicy → AgentLlmKeyPolicy
policy_after none policy = policy
policy_after (some agent) policy = agent.llm_key_policy

module _ (utf8 : String → Buffer) (to_lower_case : String → String) (kp : KeyProvider) where
  unfoldable pub get_llm_keys : MemoryDb → UserContext → String → String → Reply KeyList
  get_llm_keys db user namespace name = elim (owned_agent db user namespace name) [
    | throw e ↦ refused e
    | ok agent ↦ reply (record {
      policy = agent.llm_key_policy;
      keys = list_creator_keys utf8 to_lower_case kp db agent;
    })
  ]

  -- `key` is `none` where the field is not a text.
  unfoldable pub put_llm_key :
      MemoryDb
      → UserContext
      → String
      → String
      → String
      → JsonBody (Option String)
      → Buffer
      → ℕ
      → MemoryDb × Reply Attached
  put_llm_key db user namespace name provider input nonce now =
      elim (owned_agent db user namespace name) [
        | throw e ↦ (db, refused e)
        | ok agent ↦ elim input [
          | not_json ↦ (db, refused (invalid_request "Invalid JSON body"))
          | null_body ↦ (db, uncaught)
          | body none ↦ (db, refused (invalid_request "Body must contain { key: string }."))
          | body (some key) ↦
              let attached =
                attach_creator_key utf8 to_lower_case kp db agent provider key nonce now in
              (attached.0, dispatch attached.1)
        ]
      ]

  unfoldable pub delete_llm_key :
      MemoryDb → UserContext → String → String → String → MemoryDb × Reply (Unit {0})
  delete_llm_key db user namespace name provider = elim (owned_agent db user namespace name) [
    | throw e ↦ (db, refused e)
    | ok agent ↦ (remove_creator_key utf8 to_lower_case kp db agent provider, reply tt)
  ]

  abbrev pub policy_reply : MemoryDb → Agent → AgentLlmKeyPolicy → PolicyReply
  policy_reply db agent policy =
      if is_creator_only policy && length (list_creator_keys utf8 to_lower_case kp db agent) == 0
      then record { policy = policy; warning = some no_key_warning }
      else record { policy = policy; warning = none }

  -- `policy` is `none` where the field is neither of the two words.
  unfoldable pub put_llm_key_policy :
      MemoryDb
      → UserContext
      → String
      → String
      → JsonBody (Option AgentLlmKeyPolicy)
      → ℕ
      → MemoryDb × Reply PolicyReply
  put_llm_key_policy db user namespace name input now = elim (owned_agent db user namespace name) [
    | throw e ↦ (db, refused e)
    | ok agent ↦ elim input [
      | not_json ↦ (db, refused (invalid_request "Invalid JSON body"))
      | null_body ↦ (db, uncaught)
      | body none ↦ (
        db,
        refused (invalid_request "Body must contain { policy: \"open\" | \"creator_only\" }."),
      )
      | body (some policy) ↦
          let updated = set_llm_key_policy db namespace name policy now in
          (updated.0, reply (policy_reply updated.0 agent (policy_after updated.1 policy)))
    ]
  ]

  -- The four routes refuse a caller who may not manage the agents of the namespace: each leaves the
  -- database as it was, and its answer is the same over any other database, so it does not tell whether
  -- the agent is there or has keys.
  pub llm_keys_opaque :
      (db db' : MemoryDb) (user : UserContext) (namespace name : String)
      → ¬ MayManage user namespace
      → (get_llm_keys db user namespace name ≡ get_llm_keys db' user namespace name)
        × ((provider : String) (input : JsonBody (Option String)) (nonce : Buffer) (now : ℕ)
            → ((put_llm_key db user namespace name provider input nonce now).0 ≡ db)
              × ((put_llm_key db user namespace name provider input nonce now).1
                  ≡ (put_llm_key db' user namespace name provider input nonce now).1))
        × ((provider : String)
            → ((delete_llm_key db user namespace name provider).0 ≡ db)
              × ((delete_llm_key db user namespace name provider).1
                  ≡ (delete_llm_key db' user namespace name provider).1))
        × ((input : JsonBody (Option AgentLlmKeyPolicy)) (now : ℕ)
            → ((put_llm_key_policy db user namespace name input now).0 ≡ db)
              × ((put_llm_key_policy db user namespace name input now).1
                  ≡ (put_llm_key_policy db' user namespace name input now).1))
  unfolding get_llm_keys put_llm_key delete_llm_key put_llm_key_policy
  llm_keys_opaque db db' user namespace name h =
      let (e, throws) = unmanaged_throws user namespace name h in
      (
        rw (get_llm_keys, throws db, throws db') refl,
        λ provider input nonce now.
            (rw (put_llm_key, throws db) refl, rw (put_llm_key, throws db, throws db') refl),
        λ provider.
            (rw (delete_llm_key, throws db) refl, rw (delete_llm_key, throws db, throws db') refl),
        λ input now. (
          rw (put_llm_key_policy, throws db) refl,
          rw (put_llm_key_policy, throws db, throws db') refl,
        ),
      )
