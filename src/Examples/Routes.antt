-- ===== src/Examples/Routes.antt =====
-- The theorems of the registry's routes at concrete requests.
use skrun.Base.{
  ◌≡◌, ◌⊎◌, inl, inr, refl, ap, ◌∙◌, ==_iff, true, ◌==◌, String, Option, none, some, [], ◌∷◌,
  string_discrete, ℕ_discrete, string_eq, inl, inr,
}
use skrun.JsMap
use skrun.Schema.{Agent, UserContext, KeyContext, agents}
use skrun.Db.Agents.{get_agent, get_version_by_number, create_agent, create_version, touch_agent}
use skrun.Access.KeyScope.{is_delegated_key, assert_key_can_push_or_throw, key_allows_operation}
use skrun.Access.Verification.{owner}
use skrun.Registry.Service.{build_metadata}
use skrun.Registry.Push.{push, get_or_create}
use skrun.Routes.{reply, is_path_segment, validate_agent_params}
use skrun.Routes.Read.{get_pull, get_metadata}
use skrun.Routes.Publish.{PushInput, post_push, admit_push, read_notes, check_notes}
use skrun.Routes.Authority.{Permitted, pushing, deleting_agent, after, mutation_authorized}
use skrun.Routes.Opaque.{Hidden, reads_opaque}
use skrun.Routes.Confined.{Listed, confined}
use skrun.Routes.RoundTrip.{get_pull-post_push}
use skrun.Examples.{with_key, full_key, bot}
use skrun.Examples.Registry.{digest, blank, two}

-- A decoder for texts with no escape.
abbrev plain : String → Option String
plain s = some s

abbrev input : PushInput
input = record {
  version = some "1.0.0";
  raw_notes = some "first";
  bundle = 7 ∷ 8 ∷ [];
  config_snapshot = none;
  now = 5;
  agent_uuid = "a1";
  version_uuid = "v1";
}

abbrev ada_caller : UserContext
ada_caller = with_key full_key

abbrev bob : UserContext
bob = record (with_key full_key) { id = "u2"; username = "bob"; namespace = "bob"; key = none }

abbrev bot_key : KeyContext
bot_key = record {
  id = "k3";
  scope_kind = agents;
  operations = "agent:run" ∷ "agent:push" ∷ [];
  agent_ids = "a1" ∷ [];
}

mutation_authorized_example :
    Permitted owner two bob "ada" "bot" (pushing input)
    ⊎ (after plain digest owner two bob "ada" "bot" (pushing input) ≡ two)
mutation_authorized_example =
    mutation_authorized plain digest owner two bob "ada" "bot" (pushing input)

two-Hidden : Hidden two bob "ada" "bot"
unfolding get_agent JsMap.get string_discrete
two-Hidden a here may = elim may [
  | inl e ↦
      let same : bot ≡ a = cc here in
      let taken : ◌==◌ {A = String} "u1" "u2" ≡ true =
        (==_iff "u1" "u2").1 (ap (λ (b : Agent). b.owner_id) same ∙ e) in
      cc taken
  | inr e ↦ cc
]

blank-Hidden : Hidden blank bob "ada" "bot"
unfolding get_agent JsMap.get
blank-Hidden a here may = cc

reads_opaque_example : get_metadata two bob "ada" "bot" ≡ get_metadata blank bob "ada" "bot"
reads_opaque_example =
    (reads_opaque digest two blank bob "ada" "bot" none two-Hidden blank-Hidden).1

confined_example :
    (after plain digest owner two (with_key bot_key) "ada" "bot" deleting_agent ≡ two)
    ⊎ Listed two bot_key "ada" "bot"
confined_example =
    (confined plain digest owner two (with_key bot_key) bot_key "ada" "bot" refl refl).4
      deleting_agent

get_pull-post_push_example :
    get_pull digest
      (post_push plain digest blank ada_caller "ada" "bot" input).0
      ada_caller
      "ada"
      "bot"
      none
    ≡ reply (record {
      content_type = "application/octet-stream";
      content_disposition = "attachment; filename=\"bot-1.0.0.agent\"";
      agent_version = "1.0.0";
      bytes = 7 ∷ 8 ∷ [];
    })
unfolding post_push admit_push read_notes check_notes is_path_segment validate_agent_params push
    get_or_create JsMap.get get_agent string_discrete ℕ_discrete get_version_by_number
    build_metadata create_agent create_version touch_agent JsMap.set is_delegated_key
    assert_key_can_push_or_throw key_allows_operation
get_pull-post_push_example =
    (get_pull-post_push plain digest blank ada_caller "ada" "bot" input refl refl (λ a here. cc)).1
