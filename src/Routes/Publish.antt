-- ===== src/Routes/Publish.antt =====
-- routes/registry.ts, `POST .../push` and `PATCH .../verify`. `decodeURIComponent` is a parameter, which
-- answers `none` where it throws.
use skrun.Base.{
  ℕ, ◌+◌, String, Bool, true, false, not, ◌&&◌, Option, none, some, List, [], ◌∷◌, ◌==◌, string_eq,
  nat_eq, leb, ltb, any, if◌then◌else◌, template, get_or,
}
use skrun.Network.Codes.{codes}
use skrun.Schema.{Agent, UserContext}
use skrun.Storage.{Buffer}
use skrun.Db.Agents.{get_agent}
use skrun.Access.KeyScope.{assert_key_can_push_or_throw, assert_key_scope_or_throw}
use skrun.Access.Verification.{VerificationPolicy, is_admin_policy, can_set_verified}
use skrun.Registry.{Outcome, ok, throw, RegistryError, ◌>>=◌, ◌>>◌}
use skrun.Registry.Service.{
  Digest, RegistryService, AgentMetadata, AgentVersionInfo, agent_not_found,
}
use skrun.Registry.Push.{PushRequest, push}
use skrun.Registry.Remove.{set_version_verified}
use skrun.Routes.{
  Reply, refused, uncaught, dispatch, JsonBody, not_json, null_body, body, invalid_request,
  forbidden, validate_agent_params,
}

abbrev pub invalid_notes : String → RegistryError
invalid_notes message = record { code = "INVALID_NOTES"; message = message; status = 400 }

-- `length` of a JavaScript string: its UTF-16 code units.
abbrev pub js_length : List ℕ → ℕ
js_length [] = 0
js_length (c ∷ s) = (if leb 65536 c then 2 else 1) + js_length s

unfoldable pub check_notes : String → Outcome (Option String)
check_notes decoded =
    if ltb 500 (js_length (codes decoded))
    then throw (invalid_notes "Version notes must be 500 characters or less")
    else if any (λ c. c == 0) (codes decoded)
    then throw (invalid_notes "Version notes must not contain null bytes")
    else ok (some decoded)

-- The body and the query of a push, with what `PushRequest` adds to them.
pub record PushInput : Type 0 where
  pub version : Option String
  pub raw_notes : Option String
  pub bundle : Buffer
  pub config_snapshot : Option String
  pub now : ℕ
  pub agent_uuid : String
  pub version_uuid : String

abbrev pub push_request : UserContext → String → String → PushInput → Option String → PushRequest
push_request user namespace name i notes = record {
  namespace = namespace;
  name = name;
  version = get_or i.version "";
  bundle = i.bundle;
  user_id = user.id;
  notes = notes;
  config_snapshot = i.config_snapshot;
  now = i.now;
  agent_uuid = i.agent_uuid;
  version_uuid = i.version_uuid;
}

abbrev pub push_gate : UserContext → Option Agent → Outcome (Unit {0})
push_gate user existing = elim user.key [
  | none ↦ ok tt
  | some key ↦ assert_key_can_push_or_throw user existing
]

abbrev pub require_version : Option String → Outcome (Unit {0})
require_version version =
    if get_or version "" == ""
    then throw (record {
      code = "MISSING_VERSION";
      message = "Query param 'version' is required";
      status = 400;
    })
    else ok tt

abbrev pub require_own_namespace : UserContext → String → Outcome (Unit {0})
require_own_namespace user namespace =
    if not (namespace == user.namespace)
    then throw (
        forbidden
          (template ("You don't have permission to push to namespace '" ∷ namespace ∷ "'" ∷ [])))
    else ok tt

module _ (decode_uri_component : String → Option String) where
  unfoldable pub read_notes : Option String → Outcome (Option String)
  unfolding check_notes
  read_notes none = ok none
  read_notes (some raw) = if raw == "" then ok none else elim (decode_uri_component raw) [
    | none ↦ throw (invalid_notes "Version notes header is not valid percent-encoded UTF-8")
    | some decoded ↦ check_notes decoded
  ]

  -- Everything up to the call of the service, which gives the notes.
  unfoldable pub admit_push :
      RegistryService → UserContext → String → String → PushInput → Outcome (Option String)
  unfolding read_notes
  admit_push s user namespace name i =
      validate_agent_params namespace name
      >> (require_version i.version
          >> (require_own_namespace user namespace
              >> (read_notes i.raw_notes >>= λ notes.
                  push_gate user (get_agent s.db namespace name) >> ok notes)))

  unfoldable pub post_push :
      Digest
      → RegistryService
      → UserContext
      → String
      → String
      → PushInput
      → RegistryService × Reply AgentMetadata
  unfolding admit_push
  post_push d s user namespace name i = elim (admit_push s user namespace name i) [
    | throw e ↦ (s, refused e)
    | ok notes ↦
        let pushed = push d s (push_request user namespace name i notes) in
        (pushed.0, dispatch pushed.1)
  ]

-- The agent that the handler reads: under the policy `admin` it reads none for a caller with no key.
abbrev pub agent_for_verify :
    VerificationPolicy → RegistryService → UserContext → String → String → Option Agent
agent_for_verify policy s user namespace name = elim user.key [
  | some key ↦ get_agent s.db namespace name
  | none ↦ if is_admin_policy policy then none else get_agent s.db namespace name
]

abbrev pub owner_of : Option Agent → String
owner_of none = ""
owner_of (some agent) = agent.owner_id

abbrev pub is_missing : Option Agent → Bool
is_missing none = true
is_missing (some agent) = false

-- The scope of the key, when there are a key and an agent.
abbrev pub verify_scope : UserContext → Option Agent → Outcome (Unit {0})
verify_scope user none = ok tt
verify_scope user (some agent) = elim user.key [
  | none ↦ ok tt
  | some key ↦ assert_key_scope_or_throw user agent "agent:verify"
]

abbrev pub verify_refusal : VerificationPolicy → String
verify_refusal policy =
    if is_admin_policy policy
    then "Only an admin can verify agent versions. Promotion to admin requires a manual SQL UPDATE on the users table (see docs/self-hosting.md → Admin role)."
    else "Only the agent owner or an admin can verify this agent's versions."

unfoldable pub admit_verify :
    VerificationPolicy → RegistryService → UserContext → String → String → Outcome (Unit {0})
admit_verify policy s user namespace name =
    let agent = agent_for_verify policy s user namespace name in
    validate_agent_params namespace name
    >> (if not (is_admin_policy policy) && is_missing agent
        then throw (agent_not_found namespace name)
        else if not (can_set_verified policy user (owner_of agent))
        then throw (forbidden (verify_refusal policy))
        else verify_scope user agent)

-- `verified` is `none` where the field is not a boolean.
unfoldable pub patch_verify :
    VerificationPolicy
    → RegistryService
    → UserContext
    → String
    → String
    → String
    → JsonBody (Option Bool)
    → RegistryService × Reply AgentVersionInfo
unfolding admit_verify
patch_verify policy s user namespace name version input =
    elim (admit_verify policy s user namespace name) [
      | throw e ↦ (s, refused e)
      | ok _ ↦ elim input [
        | not_json ↦ (s, refused (invalid_request "Invalid JSON body"))
        | null_body ↦ (s, uncaught)
        | body none ↦ (s, refused (invalid_request "Body must contain { verified: boolean }"))
        | body (some verified) ↦
            let updated = set_version_verified s namespace name version verified in
            (updated.0, dispatch updated.1)
      ]
    ]
