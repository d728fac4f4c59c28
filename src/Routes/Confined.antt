-- ===== src/Routes/Confined.antt =====
-- What a key that was restricted to some agents can do through the registry's routes.
use skrun.Base.{
  ◌≡◌, ◌⊎◌, inl, inr, ℕ, String, true, Option, some, contains, string_eq, arith, Option-cases,
  Bool-cases, false,
}
use skrun.Schema.{Agent, UserContext, KeyContext, agents}
use skrun.Db.Agents.{get_agent}
use skrun.Access.KeyScope.{
  is_delegated_key, key_can_access_agent, assert_not_delegated_or_throw,
  assert_key_can_read_agent_or_throw,
}
use skrun.Access.Visibility.{assert_agent_visible_or_throw, visible_iff}
use skrun.Access.Verification.{VerificationPolicy}
use skrun.Registry.{Outcome, ok, throw, ◌>>=◌, ◌>>◌}
use skrun.Registry.Service.{Digest, RegistryService, AgentMetadata, build_metadata}
use skrun.Routes.{Reply, refused, dispatch, validate_agent_params}
use skrun.Routes.Read.{get_pull, get_agents, get_metadata, get_versions, source_of}
use skrun.Routes.Rights.{Outcome-cases, KeyCovers, MayManage}
use skrun.Routes.Authority.{
  Mutation, pushing, verifying, setting_visibility, deleting_version, deleting_agent, after,
  Permitted, mutation_authorized,
}

abbrev pub IsRefused : {A : Type 0} → Reply A → Type 0
IsRefused (refused e) = Unit
IsRefused _ = ⊥

-- The agent of the name is there and the key lists it.
abbrev pub Listed : RegistryService → KeyContext → String → String → Type 0
Listed s key namespace name =
    (a : Agent) × (get_agent s.db namespace name ≡ some a) × (contains key.agent_ids a.id ≡ true)

then-IsRefused :
    {A B : Type 0} (m : Outcome A) (f : A → Outcome B)
    → ((a : A) → IsRefused (dispatch (f a)))
    → IsRefused (dispatch (m >>= f))
then-IsRefused (ok a) f h = h a
then-IsRefused (throw e) f h = tt

stopped-IsRefused :
    {A B : Type 0} (m : Outcome A) (f : A → Outcome B)
    → IsRefused (dispatch m)
    → IsRefused (dispatch (m >>= f))
stopped-IsRefused (ok a) f h = absurd h
stopped-IsRefused (throw e) f h = tt

KeyCovers-Listed :
    (s : RegistryService) (user : UserContext) (key : KeyContext) (namespace name op : String)
    → user.key ≡ some key
    → key.scope_kind ≡ agents
    → KeyCovers user (get_agent s.db namespace name) op
    → Listed s key namespace name
KeyCovers-Listed s user key namespace name op e k (inl e') = cc
KeyCovers-Listed s user key namespace name op e k (inr (key', e', o, inl k')) = cc
KeyCovers-Listed s user key namespace name op e k (inr (key', e', o, inr (a, here, m))) =
    (a, here, cc)

not_managing :
    (user : UserContext) (key : KeyContext) (namespace : String)
    → user.key ≡ some key
    → key.scope_kind ≡ agents
    → ¬ MayManage user namespace
not_managing user key namespace e k (inl e', right) = cc
not_managing user key namespace e k (inr (key', e', (account_wide, same)), right) = cc

-- What a restricted key can have come through a handler.
Permitted-Listed :
    (policy : VerificationPolicy) (s : RegistryService) (user : UserContext) (key : KeyContext)
    (namespace name : String) (m : Mutation)
    → user.key ≡ some key
    → key.scope_kind ≡ agents
    → Permitted policy s user namespace name m
    → Listed s key namespace name
Permitted-Listed policy s user key namespace name (pushing i) e k (own, covers) =
    KeyCovers-Listed s user key namespace name "agent:push" e k covers
Permitted-Listed policy s user key namespace name (verifying v input) e k
      (a, here, (right, covers)) =
    KeyCovers-Listed s user key namespace name "agent:verify" e k (rw here covers)
Permitted-Listed policy s user key namespace name (setting_visibility input now) e k h =
    absurd (not_managing user key namespace e k h)
Permitted-Listed policy s user key namespace name (deleting_version v) e k h =
    absurd (not_managing user key namespace e k h)
Permitted-Listed policy s user key namespace name deleting_agent e k h =
    absurd (not_managing user key namespace e k h)

not_delegated-IsRefused :
    (user : UserContext) (key : KeyContext)
    → user.key ≡ some key
    → key.scope_kind ≡ agents
    → IsRefused (dispatch (assert_not_delegated_or_throw user))
unfolding assert_not_delegated_or_throw is_delegated_key
not_delegated-IsRefused user key e k = ground arith

source_of-IsRefused :
    (s : RegistryService) (user : UserContext) (key : KeyContext) (namespace name : String)
    → user.key ≡ some key
    → key.scope_kind ≡ agents
    → IsRefused (dispatch (source_of s user namespace name))
source_of-IsRefused s user key namespace name e k =
    then-IsRefused
      (assert_agent_visible_or_throw (get_agent s.db namespace name) user namespace name) _
      λ agent.
        stopped-IsRefused (assert_not_delegated_or_throw user) (λ _. ok agent)
          (not_delegated-IsRefused user key e k)

get_pull-IsRefused :
    (d : Digest) (s : RegistryService) (user : UserContext) (key : KeyContext)
    (namespace name : String) (version : Option String)
    → user.key ≡ some key
    → key.scope_kind ≡ agents
    → IsRefused (get_pull d s user namespace name version)
unfolding get_pull
get_pull-IsRefused d s user key namespace name version e k =
    then-IsRefused (validate_agent_params namespace name) _ λ _.
      stopped-IsRefused (source_of s user namespace name) _
        (source_of-IsRefused s user key namespace name e k)

get_versions-IsRefused :
    (s : RegistryService) (user : UserContext) (key : KeyContext) (namespace name : String)
    → user.key ≡ some key
    → key.scope_kind ≡ agents
    → IsRefused (get_versions s user namespace name)
unfolding get_versions
get_versions-IsRefused s user key namespace name e k =
    then-IsRefused (validate_agent_params namespace name) _ λ _.
      stopped-IsRefused (source_of s user namespace name) _
        (source_of-IsRefused s user key namespace name e k)

get_agents-IsRefused :
    (s : RegistryService) (user : UserContext) (key : KeyContext) (page limit : ℕ)
    → user.key ≡ some key
    → key.scope_kind ≡ agents
    → IsRefused (get_agents s user page limit)
unfolding get_agents is_delegated_key
get_agents-IsRefused s user key page limit e k = ground arith

unlisted-IsRefused :
    (user : UserContext) (key : KeyContext) (a : Agent)
    → user.key ≡ some key
    → key.scope_kind ≡ agents
    → contains key.agent_ids a.id ≡ false
    → IsRefused (dispatch (assert_key_can_read_agent_or_throw user a))
unfolding assert_key_can_read_agent_or_throw is_delegated_key key_can_access_agent
unlisted-IsRefused user key a e k m = ground arith

read-IsRefused :
    (agent : Option Agent) (user : UserContext) (key : KeyContext) (namespace name : String)
    (metadata : Outcome AgentMetadata)
    → user.key ≡ some key
    → key.scope_kind ≡ agents
    → ((a : Agent) → agent ≡ some a → contains key.agent_ids a.id ≡ false)
    → IsRefused (
        dispatch (
          assert_agent_visible_or_throw agent user namespace name >>= λ a.
          assert_key_can_read_agent_or_throw user a >> metadata))
read-IsRefused agent user key namespace name metadata e k missing =
    elim (Outcome-cases (assert_agent_visible_or_throw agent user namespace name)) [
      | inr (e', h) ↦ rw h tt
      | inl (a, h) ↦
          let there : agent ≡ some a = ((visible_iff agent user namespace name a).0 h).0 in
          rw h (
            stopped-IsRefused (assert_key_can_read_agent_or_throw user a) (λ _. metadata)
              (unlisted-IsRefused user key a e k (missing a there)))
    ]

get_metadata-Listed :
    (s : RegistryService) (user : UserContext) (key : KeyContext) (namespace name : String)
    → user.key ≡ some key
    → key.scope_kind ≡ agents
    → IsRefused (get_metadata s user namespace name) ⊎ Listed s key namespace name
unfolding get_metadata
get_metadata-Listed s user key namespace name e k =
    elim (Option-cases (get_agent s.db namespace name)) [
      | inl absent ↦ inl (refused_if λ a here. cc)
      | inr (a, here) ↦ elim (Bool-cases (contains key.agent_ids a.id)) [
        | inl m ↦ inr (a, here, m)
        | inr m ↦ inl (refused_if λ b there. cc)
      ]
    ]
  where
    refused_if :
        ((a : Agent) → get_agent s.db namespace name ≡ some a → contains key.agent_ids a.id ≡ false)
        → IsRefused (get_metadata s user namespace name)
    refused_if missing = then-IsRefused (validate_agent_params namespace name) _ λ _.
        read-IsRefused (get_agent s.db namespace name) user key namespace name
          (build_metadata s.db namespace name) e k missing

-- A key that was restricted to some agents gets no bundle, no history and no listing; it gets the
-- metadata of an agent that it lists at most; and a request that it makes leaves the registry as it
-- was, unless it is about an agent that is there already and that the key lists.
pub confined :
    (decode : String → Option String) (d : Digest) (policy : VerificationPolicy)
    (s : RegistryService) (user : UserContext) (key : KeyContext) (namespace name : String)
    → user.key ≡ some key
    → key.scope_kind ≡ agents
    → ((version : Option String) → IsRefused (get_pull d s user namespace name version))
      × IsRefused (get_versions s user namespace name)
      × ((page limit : ℕ) → IsRefused (get_agents s user page limit))
      × (IsRefused (get_metadata s user namespace name) ⊎ Listed s key namespace name)
      × ((m : Mutation)
          → (after decode d policy s user namespace name m ≡ s) ⊎ Listed s key namespace name)
confined decode d policy s user key namespace name e k = (
  λ version. get_pull-IsRefused d s user key namespace name version e k,
  get_versions-IsRefused s user key namespace name e k,
  λ page limit. get_agents-IsRefused s user key page limit e k,
  get_metadata-Listed s user key namespace name e k,
  λ m. elim (mutation_authorized decode d policy s user namespace name m) [
    | inl h ↦ inr (Permitted-Listed policy s user key namespace name m e k h)
    | inr same ↦ inl same
  ],
)
