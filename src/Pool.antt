-- ===== src/Pool.antt =====
-- packages/runtime/src/adapter/flyio/pool.ts: the pool of paused runner machines. The platform's
-- answers (the machine that `create` gave, whether a boot went well, the list of live machines) and
-- the clock are arguments; the machines that the code destroys are an answer of its operation.
pub mod Keyed
pub mod Claims
pub mod Depth
pub mod Target
pub mod Drain
pub mod Upkeep
pub mod Reconcile
use skrun.Base.{
  ℕ, ◌+◌, ◌-◌, ◌*◌, String, Bool, true, false, not, ◌&&◌, ◌||◌, Option, none, some, List, [], ◌∷◌,
  ◌==◌, string_eq, ltb, leb, if◌then◌else◌, length, filter, map, contains,
}
use skrun.JsMap
use skrun.JsMap.{JsMap, values, has}

pub data PooledMachineState : Type 0 where
  filling ready claimed draining : PooledMachineState

abbrev pub is_filling : PooledMachineState → Bool
is_filling filling = true
is_filling ready = false
is_filling claimed = false
is_filling draining = false

abbrev pub is_ready : PooledMachineState → Bool
is_ready filling = false
is_ready ready = true
is_ready claimed = false
is_ready draining = false

abbrev pub is_claimed : PooledMachineState → Bool
is_claimed filling = false
is_claimed ready = false
is_claimed claimed = true
is_claimed draining = false

abbrev pub is_draining : PooledMachineState → Bool
is_draining filling = false
is_draining ready = false
is_draining claimed = false
is_draining draining = true

pub record PooledMachine : Type 0 where
  pub machine_id : String
  pub private_ip : String
  pub claim_token : String
  pub image_tag : String
  pub harness6pn : Option String
  pub created_at : ℕ
  pub process_id : Option String
  pub state : PooledMachineState

pub record RunnerPoolOptions : Type 0 where
  pub size : ℕ
  pub image_tag : String
  pub harness6pn : Option String
  pub max_idle_ms : ℕ
  pub max_run_timeout_ms : ℕ

pub record RunnerPool : Type 0 where
  pub options : RunnerPoolOptions
  pub machines : JsMap String PooledMachine
  pub fill_errors : ℕ
  pub drains : ℕ
  pub orphans_destroyed : ℕ
  pub hits : ℕ
  pub misses : ℕ

pub record NewMachine : Type 0 where
  pub machine_id : String
  pub private_ip : String
  pub claim_token : String
  pub image_tag : String
  pub harness6pn : Option String

unfoldable pub register : RunnerPool → NewMachine → ℕ → RunnerPool
register p m now = record p {
  machines = JsMap.set p.machines m.machine_id (record {
    machine_id = m.machine_id;
    private_ip = m.private_ip;
    claim_token = m.claim_token;
    image_tag = m.image_tag;
    harness6pn = m.harness6pn;
    created_at = now;
    process_id = none;
    state = filling;
  });
}

unfoldable pub mark_ready : RunnerPool → String → RunnerPool × Bool
mark_ready p id = elim (JsMap.get p.machines id) [
  | none ↦ (p, false)
  | some entry ↦
      if not (is_filling entry.state)
      then (p, false)
      else (record p { machines = JsMap.set p.machines id (record entry { state = ready }) }, true)
]

-- `addOne` writes what the machine said of itself.
unfoldable pub set_process_id : RunnerPool → String → Option String → RunnerPool
set_process_id p id process_id = elim (JsMap.get p.machines id) [
  | none ↦ p
  | some entry ↦ record p {
    machines = JsMap.set p.machines id (record entry { process_id = process_id });
  }
]

-- The loop of `takeReady`: the first ready machine is claimed, in one step.
unfoldable pub take_first :
    JsMap String PooledMachine → JsMap String PooledMachine × Option PooledMachine
take_first [] = ([], none)
take_first ((id, entry) ∷ m) =
    let (m', taken) = take_first m in
    if is_ready entry.state
    then ((id, record entry { state = claimed }) ∷ m, some (record entry { state = claimed }))
    else ((id, entry) ∷ m', taken)

unfoldable pub take_ready : RunnerPool → RunnerPool × Option PooledMachine
take_ready p = let (m, taken) = take_first p.machines in (record p { machines = m }, taken)

unfoldable pub mark_draining : RunnerPool → String → RunnerPool × Bool
mark_draining p id = elim (JsMap.get p.machines id) [
  | none ↦ (p, false)
  | some entry ↦
      (record p { machines = JsMap.set p.machines id (record entry { state = draining }) }, true)
]

unfoldable pub forget : RunnerPool → String → RunnerPool × Bool
forget p id = (record p { machines = JsMap.delete p.machines id }, has p.machines id)

-- `a ?? undefined !== b ?? undefined`
abbrev pub same_address : Option String → Option String → Bool
same_address none none = true
same_address none (some b) = false
same_address (some a) none = false
same_address (some a) (some b) = a == b

abbrev pub is_stale : RunnerPoolOptions → PooledMachine → Bool
is_stale o machine =
    if not (machine.image_tag == o.image_tag)
    then true
    else not (same_address machine.harness6pn o.harness6pn)

unfoldable pub classify_resume : PooledMachine → Option String → Option Bool
classify_resume machine reported = elim machine.process_id [
  | none ↦ none
  | some mine ↦ elim reported [
    | none ↦ none
    | some theirs ↦ if mine == "" || theirs == "" then none else some (mine == theirs)
  ]
]

-- `now - createdAt >= maxIdle`
abbrev pub is_expired : RunnerPoolOptions → PooledMachine → ℕ → Bool
is_expired o machine now = leb (machine.created_at + o.max_idle_ms) now

abbrev pub is_usable : PooledMachine → Bool
is_usable m = is_filling m.state || is_ready m.state

unfoldable pub deficit : RunnerPool → ℕ
deficit p = p.options.size - length (filter is_usable (values p.machines))

abbrev pub count_by : (PooledMachineState → Bool) → JsMap String PooledMachine → ℕ
count_by is m = length (filter (λ (e : PooledMachine). is e.state) (values m))

pub record RunnerPoolStats : Type 0 where
  pub size : ℕ
  pub filling : ℕ
  pub ready : ℕ
  pub claimed : ℕ
  pub draining : ℕ
  pub fill_errors : ℕ
  pub drains : ℕ
  pub orphans_destroyed : ℕ
  pub hits : ℕ
  pub misses : ℕ

unfoldable pub stats : RunnerPool → RunnerPoolStats
stats p = record {
  size = p.options.size;
  filling = count_by is_filling p.machines;
  ready = count_by is_ready p.machines;
  claimed = count_by is_claimed p.machines;
  draining = count_by is_draining p.machines;
  fill_errors = p.fill_errors;
  drains = p.drains;
  orphans_destroyed = p.orphans_destroyed;
  hits = p.hits;
  misses = p.misses;
}
