-- ===== src/Access/Visibility.antt =====
-- packages/api/src/services/access.ts: who may see an agent, and who may run it.
use skrun.Base.{
  String, Bool, true, false, not, ◌&&◌, Option, none, some, [], ◌∷◌, ◌==◌, string_eq, nat_eq,
  if◌then◌else◌, template, ◌≡◌, ◌⊎◌, ◌↔◌, arith,
}
use skrun.Schema.{Agent, UserContext, is_admin, admin, Visibility, public_agent, private_agent}
use skrun.Registry.{Outcome, ok, throw, RegistryError}

abbrev pub not_found : String → String → RegistryError
not_found ns name = record {
  code = "NOT_FOUND";
  message = template ("Agent " ∷ ns ∷ "/" ∷ name ∷ " not found" ∷ []);
  status = 404;
}

-- `asserts agent is Agent`: the agent that is there after the call.
unfoldable pub assert_agent_visible_or_throw :
    Option Agent → UserContext → String → String → Outcome Agent
assert_agent_visible_or_throw none user requested_ns requested_name =
    throw (not_found requested_ns requested_name)
assert_agent_visible_or_throw (some agent) user requested_ns requested_name =
    if not (agent.owner_id == user.id) && not (is_admin user.role)
    then throw (not_found requested_ns requested_name)
    else ok agent

abbrev is_public : Visibility → Bool
is_public public_agent = true
is_public private_agent = false

unfoldable pub assert_agent_runnable_or_throw :
    Option Agent → UserContext → String → String → Outcome Agent
unfolding assert_agent_visible_or_throw
assert_agent_runnable_or_throw none user ns name = assert_agent_visible_or_throw none user ns name
assert_agent_runnable_or_throw (some agent) user ns name =
    if is_public agent.visibility
    then ok agent
    else assert_agent_visible_or_throw (some agent) user ns name

-- The caller may see an agent: it owns it, or is an administrator.
abbrev pub MaySee : Agent → UserContext → Type 0
MaySee agent user = (agent.owner_id ≡ user.id) ⊎ (user.role ≡ admin)

-- The visibility gate passes exactly for an agent that is there and that the caller owns or
-- administers, and then gives that agent.
pub visible_iff :
    (agent : Option Agent) (user : UserContext) (ns name : String) (a : Agent)
    → (assert_agent_visible_or_throw agent user ns name ≡ ok a) ↔ ((agent ≡ some a) × MaySee a user)
unfolding assert_agent_visible_or_throw
visible_iff none user ns name a = (λ e. cc, λ h. cc (h.0))
visible_iff (some agent) user ns name a = (λ e. ground arith, λ h. ground arith)

-- The run gate passes exactly for an agent that is there and that is public, or that the caller owns
-- or administers.
pub runnable_iff :
    (agent : Option Agent) (user : UserContext) (ns name : String) (a : Agent)
    → (assert_agent_runnable_or_throw agent user ns name ≡ ok a)
      ↔ ((agent ≡ some a) × ((a.visibility ≡ public_agent) ⊎ MaySee a user))
unfolding assert_agent_runnable_or_throw
runnable_iff none user ns name a = (λ e. cc, λ h. cc (h.0))
runnable_iff (some agent) user ns name a = (λ e. ground arith, λ h. ground arith)

-- Whenever either gate refuses, the error is the one that an absent agent gives to any caller at all:
-- it depends on the requested names only.
pub refusal_opaque :
    (agent : Option Agent) (user : UserContext) (ns name : String) (e : RegistryError)
    → (assert_agent_visible_or_throw agent user ns name ≡ throw e)
      ⊎ (assert_agent_runnable_or_throw agent user ns name ≡ throw e)
    → (other : UserContext) → assert_agent_visible_or_throw none other ns name ≡ throw e
unfolding assert_agent_runnable_or_throw
refusal_opaque none user ns name e h other = ground arith
refusal_opaque (some agent) user ns name e h other = ground arith
