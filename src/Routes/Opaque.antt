-- ===== src/Routes/Opaque.antt =====
-- What the routes that read tell a caller about an agent that it may not see.
use skrun.Base.{◌≡◌, refl, ◌∙◌, sym, String, Option, none, some, arith}
use skrun.Schema.{Agent, UserContext}
use skrun.Db.Agents.{get_agent}
use skrun.Access.Visibility.{MaySee, assert_agent_visible_or_throw, not_found}
use skrun.Registry.{throw, ◌>>◌}
use skrun.Registry.Service.{Digest, RegistryService}
use skrun.Routes.{dispatch, validate_agent_params}
use skrun.Routes.Read.{get_pull, get_metadata, get_versions}

-- There is no agent of the name, or one that the caller neither owns nor administers.
abbrev pub Hidden : RegistryService → UserContext → String → String → Type 0
Hidden s user namespace name =
    (a : Agent) → get_agent s.db namespace name ≡ some a → ¬ MaySee a user

hidden_throws :
    (agent : Option Agent) (user : UserContext) (namespace name : String)
    → ((a : Agent) → agent ≡ some a → ¬ MaySee a user)
    → assert_agent_visible_or_throw agent user namespace name ≡ throw (not_found namespace name)
unfolding assert_agent_visible_or_throw
hidden_throws none user namespace name h = refl
hidden_throws (some a) user namespace name h =
    let unseen : ¬ MaySee a user = h a refl in ground (arith, unseen)

get_pull-Hidden :
    (d : Digest) (s : RegistryService) (user : UserContext) (namespace name : String)
    (version : Option String)
    → Hidden s user namespace name
    → get_pull d s user namespace name version
      ≡ dispatch (validate_agent_params namespace name >> throw (not_found namespace name))
unfolding get_pull
get_pull-Hidden d s user namespace name version h =
    rw (get_pull, hidden_throws (get_agent s.db namespace name) user namespace name h) refl

get_metadata-Hidden :
    (s : RegistryService) (user : UserContext) (namespace name : String)
    → Hidden s user namespace name
    → get_metadata s user namespace name
      ≡ dispatch (validate_agent_params namespace name >> throw (not_found namespace name))
unfolding get_metadata
get_metadata-Hidden s user namespace name h =
    rw (get_metadata, hidden_throws (get_agent s.db namespace name) user namespace name h) refl

get_versions-Hidden :
    (s : RegistryService) (user : UserContext) (namespace name : String)
    → Hidden s user namespace name
    → get_versions s user namespace name
      ≡ dispatch (validate_agent_params namespace name >> throw (not_found namespace name))
unfolding get_versions
get_versions-Hidden s user namespace name h =
    rw (get_versions, hidden_throws (get_agent s.db namespace name) user namespace name h) refl

-- Nothing of an agent that a caller may not see comes through the routes that read it: in any two
-- states in which it is hidden from the caller, or absent, each of them gives the same answer.
pub reads_opaque :
    (d : Digest) (s s' : RegistryService) (user : UserContext) (namespace name : String)
    (version : Option String)
    → Hidden s user namespace name
    → Hidden s' user namespace name
    → (get_pull d s user namespace name version ≡ get_pull d s' user namespace name version)
      × (get_metadata s user namespace name ≡ get_metadata s' user namespace name)
      × (get_versions s user namespace name ≡ get_versions s' user namespace name)
reads_opaque d s s' user namespace name version h h' = (
  get_pull-Hidden d s user namespace name version h
      ∙ sym (get_pull-Hidden d s' user namespace name version h'),
  get_metadata-Hidden s user namespace name h ∙ sym (get_metadata-Hidden s' user namespace name h'),
  get_versions-Hidden s user namespace name h ∙ sym (get_versions-Hidden s' user namespace name h'),
)
