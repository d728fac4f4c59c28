-- ===== src/Routes/Manage.antt =====
-- routes/registry.ts, `PATCH .../visibility` and the two deletions.
use skrun.Base.{ℕ, String, Option, none, some}
use skrun.Schema.{Agent, UserContext, Visibility, private_agent, public_agent}
use skrun.Db.Agents.{set_visibility}
use skrun.Registry.{ok, throw, RegistryError}
use skrun.Registry.Service.{RegistryService, agent_not_found}
use skrun.Registry.Remove.{delete_agent, delete_version}
use skrun.Routes.{
  Reply, reply, refused, uncaught, dispatch, JsonBody, not_json, null_body, body, invalid_request,
  may_manage,
}

abbrev pub public_disabled : RegistryError
public_disabled = record {
  code = "PUBLIC_VISIBILITY_DISABLED";
  message = "Public visibility ships with the marketplace; agents are private-only for now.";
  status = 400;
}

abbrev pub or_not_found : String → String → Option Agent → Reply Agent
or_not_found namespace name none = refused (agent_not_found namespace name)
or_not_found namespace name (some agent) = reply agent

-- `visibility` is `none` where the field is neither of the two words.
unfoldable pub patch_visibility :
    RegistryService
    → UserContext
    → String
    → String
    → JsonBody (Option Visibility)
    → ℕ
    → RegistryService × Reply Agent
patch_visibility s user namespace name input now =
    elim (may_manage "change visibility" user namespace name) [
      | throw e ↦ (s, refused e)
      | ok _ ↦ elim input [
        | not_json ↦ (s, refused (invalid_request "Invalid JSON body"))
        | null_body ↦ (s, uncaught)
        | body none ↦ (
          s,
          refused (invalid_request "Body must contain { visibility: \"private\" | \"public\" }"),
        )
        | body (some public_agent) ↦ (s, refused public_disabled)
        | body (some private_agent) ↦
            let updated = set_visibility s.db namespace name private_agent now in
            (record s { db = updated.0 }, or_not_found namespace name updated.1)
      ]
    ]

unfoldable pub delete_version_route :
    RegistryService → UserContext → String → String → String → RegistryService × Reply (Unit {0})
delete_version_route s user namespace name version =
    elim (may_manage "delete versions" user namespace name) [
      | throw e ↦ (s, refused e)
      | ok _ ↦
          let deleted = delete_version s namespace name version in (deleted.0, dispatch deleted.1)
    ]

unfoldable pub delete_agent_route :
    RegistryService → UserContext → String → String → RegistryService × Reply (Unit {0})
delete_agent_route s user namespace name = elim (may_manage "delete agents" user namespace name) [
  | throw e ↦ (s, refused e)
  | ok _ ↦ let deleted = delete_agent s namespace name in (deleted.0, dispatch deleted.1)
]
