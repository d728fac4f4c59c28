-- ===== src/Routes.antt =====
-- packages/api/src/routes: the handlers of the registry's routes (registry.ts) and what they share
-- (_helpers.ts). A handler takes the caller that the authentication middleware found and the service,
-- whose database is that of the routes, and returns the service beside its answer. Log lines are not
-- modelled.
pub mod Read
pub mod Publish
pub mod Manage
pub mod Rights
pub mod Authority
pub mod Opaque
pub mod Confined
pub mod RoundTrip
pub mod LlmKeys
use skrun.Base.{
  ℕ, ◌+◌, String, Bool, true, false, not, ◌&&◌, ◌||◌, [], ◌∷◌, ◌==◌, string_eq, nat_eq, leb, all,
  length, if◌then◌else◌, template, Option, none, some,
}
use skrun.Network.Codes.{codes, is_digit}
use skrun.Schema.{UserContext, is_admin}
use skrun.Registry.{Outcome, ok, throw, RegistryError, ◌>>◌}
use skrun.Access.KeyScope.{is_master_credential}

-- A body, an error body with its status, or an exception that the handler lets through.
pub data Reply (A : Type 0) : Type 0 where
  reply : A → Reply A
  refused : RegistryError → Reply A
  uncaught : Reply A

-- `dispatchRegistryError`, as what a `try` with that handler answers.
abbrev pub dispatch : {A : Type 0} → Outcome A → Reply A
dispatch (ok a) = reply a
dispatch (throw e) = refused e

-- What `c.req.json()` gives: it throws, it is `null`, or it is a value of which the handler reads a field.
pub data JsonBody (A : Type 0) : Type 0 where
  not_json : JsonBody A
  null_body : JsonBody A
  body : A → JsonBody A

abbrev pub invalid_request : String → RegistryError
invalid_request message = record { code = "INVALID_REQUEST"; message = message; status = 400 }

abbrev pub forbidden : String → RegistryError
forbidden message = record { code = "FORBIDDEN"; message = message; status = 403 }

-- `[a-z0-9-]`
abbrev pub is_segment_code : ℕ → Bool
is_segment_code c = (leb b'a' c && leb c b'z') || (is_digit c || c == b'-')

-- `PATH_SEGMENT_REGEX`
unfoldable pub is_path_segment : String → Bool
is_path_segment s =
    let c = codes s in leb 1 (length c) && (leb (length c) 64 && all is_segment_code c)

unfoldable pub validate_agent_params : String → String → Outcome (Unit {0})
validate_agent_params namespace name =
    if not (is_path_segment namespace) || not (is_path_segment name)
    then throw (record {
      code = "INVALID_AGENT_NAME";
      message = "namespace and name must be lowercase kebab-case (a-z, 0-9, hyphen, ≤64 chars).";
      status = 400;
    })
    else ok tt

unfoldable pub require_master_credential : UserContext → Outcome (Unit {0})
require_master_credential user =
    if is_master_credential user
    then ok tt
    else throw (record {
      code = "KEY_SCOPE_FORBIDDEN";
      message = "This action requires an account-wide API key (or a session / dev-token).";
      status = 403;
    })

-- The checks that start the handlers of visibility and of the two deletions; `action` is in the message.
unfoldable pub may_manage : String → UserContext → String → String → Outcome (Unit {0})
may_manage action user namespace name =
    validate_agent_params namespace name
    >> (require_master_credential user
        >> (if not (namespace == user.namespace) && not (is_admin user.role)
            then throw (
                forbidden (
                  template (
                    "You don't have permission to " ∷ action ∷ " in namespace '" ∷ namespace ∷ "'"
                    ∷ [])))
            else ok tt))
