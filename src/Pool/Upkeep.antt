-- ===== src/Pool/Upkeep.antt =====
-- pool.ts, the upkeep: the fill, the drain of stale machines and the reconciliation with the platform.
-- Each is run to its end without another event between its steps.
use text.Mathlib.Text.{starts_with}
use skrun.Base.{
  ℕ, ◌+◌, ◌*◌, String, Bool, true, false, not, ◌&&◌, ◌||◌, Option, none, some, List, [], ◌∷◌, ◌++◌,
  ◌==◌, string_eq, nat_eq, leb, if◌then◌else◌, map, contains, length,
}
use skrun.JsMap.{values, has}
use skrun.Pool.{
  PooledMachine, is_claimed, is_draining, RunnerPool, RunnerPoolOptions, NewMachine, register,
  mark_ready, set_process_id, mark_draining, forget, is_stale, is_expired, deficit,
}

-- How the platform answers `addOne`: `create` throws; it gives a machine without an address; the
-- machine does not boot or does not suspend; or all goes well and the runner names its process.
pub data Boot : Type 0 where
  create_failed : Boot
  no_address : (id : String) → Boot
  boot_failed : (m : NewMachine) → Boot
  booted : (m : NewMachine) (process_id : Option String) → Boot

abbrev pub write_off : RunnerPool → RunnerPool
write_off p = record p { fill_errors = p.fill_errors + 1 }

-- Whether a machine was added, and the machines that are destroyed.
unfoldable pub add_one : RunnerPool → Boot → ℕ → RunnerPool × Bool × List String
add_one p create_failed now = (write_off p, false, [])
add_one p (no_address id) now = ((forget (write_off p) id).0, false, id ∷ [])
add_one p (boot_failed m) now =
    ((forget (write_off (register p m now)) m.machine_id).0, false, m.machine_id ∷ [])
add_one p (booted m process_id) now = (
  (mark_ready (set_process_id (register p m now) m.machine_id process_id) m.machine_id).0,
  true,
  [],
)

-- `fill`: while there is a deficit, a machine is added; the list has the platform's answers.
unfoldable pub fill : RunnerPool → List Boot → ℕ → RunnerPool × List String
fill p [] now = (p, [])
fill p (b ∷ bs) now =
    let (p', added, destroyed) = add_one p b now in
    let (p'', more) = fill p' bs now in
    if deficit p == 0 then (p, []) else if added then (p'', destroyed ++ more) else (p', destroyed)

-- A machine that `drainStale` disposes of.
abbrev pub is_drainable : RunnerPoolOptions → ℕ → PooledMachine → Bool
is_drainable o now m =
    if is_claimed m.state || is_draining m.state then false else is_stale o m || is_expired o m now

abbrev pub drain_one : RunnerPool → String → RunnerPool
drain_one p id = record (forget (mark_draining p id).0 id).0 { drains = p.drains + 1 }

unfoldable pub drain_loop : RunnerPool → List PooledMachine → ℕ → RunnerPool × List String
drain_loop p [] now = (p, [])
drain_loop p (m ∷ ms) now =
    let drained = is_drainable p.options now m in
    let (p', ids) = drain_loop (if drained then drain_one p m.machine_id else p) ms now in
    (p', if drained then m.machine_id ∷ ids else ids)

unfoldable pub drain_stale : RunnerPool → ℕ → RunnerPool × List String
drain_stale p now = drain_loop p (values p.machines) now

-- A machine of the platform's list; `touched_at` is `updated_at ?? created_at`, when it parses.
pub record LiveMachine : Type 0 where
  pub id : String
  pub name : String
  pub state : String
  pub touched_at : Option ℕ

unfoldable pub forget_missing : RunnerPool → List String → List PooledMachine → RunnerPool
forget_missing p live_ids [] = p
forget_missing p live_ids (m ∷ ms) =
    forget_missing (if not (contains live_ids m.machine_id) then (forget p m.machine_id).0 else p)
      live_ids ms

abbrev pub is_old : Option ℕ → ℕ → ℕ → Bool
is_old none limit now = false
is_old (some at) limit now = leb (at + limit) now

abbrev pub is_disposable : RunnerPoolOptions → ℕ → LiveMachine → Bool
is_disposable o now m =
    (m.state == "suspended" && is_old m.touched_at o.max_idle_ms now)
    || (m.state == "started" && is_old m.touched_at (o.max_run_timeout_ms * 4) now)

-- The machines that `reconcile` destroys: pool-named, unknown here, and disposable.
unfoldable pub orphans : RunnerPool → List LiveMachine → ℕ → List String
orphans p [] now = []
orphans p (m ∷ ms) now =
    let rest = orphans p ms now in
    if not (starts_with m.name "skrun-pool-") || has p.machines m.id
    then rest
    else if is_disposable p.options now m
    then m.id ∷ rest
    else rest

abbrev pub live_ids : List LiveMachine → List String
live_ids live = map (λ (m : LiveMachine). m.id) live

unfoldable pub reconcile : RunnerPool → Option (List LiveMachine) → ℕ → RunnerPool × List String
reconcile p none now = (p, [])
reconcile p (some live) now =
    let known = forget_missing p (live_ids live) (values p.machines) in
    let destroyed = orphans known live now in
    (record known { orphans_destroyed = known.orphans_destroyed + length destroyed }, destroyed)
