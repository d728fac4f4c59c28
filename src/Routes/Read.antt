-- ===== src/Routes/Read.antt =====
-- routes/registry.ts, the handlers that only read.
use skrun.Base.{ℕ, String, Option, none, some, List, [], ◌∷◌, if◌then◌else◌, template}
use skrun.Schema.{Agent, UserContext, is_admin}
use skrun.Storage.{Buffer}
use skrun.Db.Agents.{get_agent}
use skrun.Access.Visibility.{assert_agent_visible_or_throw}
use skrun.Access.KeyScope.{
  is_delegated_key, assert_not_delegated_or_throw, assert_key_can_read_agent_or_throw,
}
use skrun.Registry.{Outcome, ok, RegistryError, ◌>>=◌, ◌>>◌}
use skrun.Registry.Service.{
  Digest, RegistryService, AgentMetadata, AgentVersionInfo, build_metadata, versions_of, list,
}
use skrun.Registry.Push.{Pulled, pull}
use skrun.Routes.{Reply, reply, refused, dispatch, validate_agent_params}

-- The bundle with the headers that name it.
pub record PullReply : Type 0 where
  pub content_type : String
  pub content_disposition : String
  pub agent_version : String
  pub bytes : Buffer

abbrev pub as_download : String → Pulled → PullReply
as_download name result = record {
  content_type = "application/octet-stream";
  content_disposition =
      template ("attachment; filename=\"" ∷ name ∷ "-" ∷ result.version ∷ ".agent\"" ∷ []);
  agent_version = result.version;
  bytes = result.buffer;
}

-- The agent, once the caller may see it and is not confined to some agents.
abbrev pub source_of : RegistryService → UserContext → String → String → Outcome Agent
source_of s user namespace name =
    assert_agent_visible_or_throw (get_agent s.db namespace name) user namespace name >>= λ agent.
    assert_not_delegated_or_throw user >> ok agent

-- `GET .../pull` with no version, and `GET .../pull/:version`.
unfoldable pub get_pull :
    Digest → RegistryService → UserContext → String → String → Option String → Reply PullReply
get_pull d s user namespace name version = dispatch (
    validate_agent_params namespace name
    >> (source_of s user namespace name >>= λ agent.
        pull d s namespace name version (some agent) >>= λ result. ok (as_download name result)))

pub record ListReply : Type 0 where
  pub agents : List AgentMetadata
  pub total : ℕ
  pub page : ℕ
  pub limit : ℕ

abbrev pub list_forbidden : RegistryError
list_forbidden = record {
  code = "KEY_SCOPE_FORBIDDEN";
  message = "This endpoint is not available to a resource-scoped API key.";
  status = 403;
}

-- `GET /agents`, whose page and limit are given as numbers.
unfoldable pub get_agents : RegistryService → UserContext → ℕ → ℕ → Reply ListReply
get_agents s user page limit =
    if is_delegated_key user
    then refused list_forbidden
    else let result = list s page limit (if is_admin user.role then none else some user.id) in
      reply (record { agents = result.0; total = result.1; page = page; limit = limit })

unfoldable pub get_metadata : RegistryService → UserContext → String → String → Reply AgentMetadata
get_metadata s user namespace name = dispatch (
    validate_agent_params namespace name
    >> (assert_agent_visible_or_throw (get_agent s.db namespace name) user namespace name
        >>= λ agent.
            assert_key_can_read_agent_or_throw user agent >> build_metadata s.db namespace name))

unfoldable pub get_versions :
    RegistryService → UserContext → String → String → Reply (List AgentVersionInfo)
get_versions s user namespace name = dispatch (
    validate_agent_params namespace name
    >> (source_of s user namespace name >>= λ agent. versions_of s.db namespace name))
