-- ===== src/Pool/Depth.antt =====
-- How many machines the pool holds and wants.
use skrun.Base.{
  ℕ, suc, ◌+◌, ◌-◌, ◌≤◌, max, String, ◌≡◌, refl, true, ◌||◌, Option, some, List, [], ◌∷◌, string_eq,
  inl, inr, Bool-cases, Option-cases, arith, length, filter,
}
use skrun.JsMap
use skrun.JsMap.{JsMap, Distinct, values}
use skrun.JsMap.Laws.{get-set_self}
use skrun.Pool.{
  PooledMachine, ready, is_filling, is_ready, is_claimed, is_draining, is_usable, count_by,
  RunnerPool, NewMachine, register, mark_ready, set_process_id, forget, deficit, stats,
}
use skrun.Pool.Upkeep.{Boot, create_failed, no_address, boot_failed, booted, add_one, fill}

abbrev pub usable : JsMap String PooledMachine → ℕ
usable m = length (filter is_usable (values m))

is_usable_cases : (m : PooledMachine) → is_usable m ≡ (is_filling m.state || is_ready m.state)
is_usable_cases m = refl

pub count_usable :
    (m : JsMap String PooledMachine) → usable m ≡ count_by is_filling m + count_by is_ready m
count_usable [] = refl
count_usable ((id, e) ∷ m) = ground (arith, count_usable m)

count_all :
    (m : JsMap String PooledMachine)
    → count_by is_filling m + count_by is_ready m + count_by is_claimed m + count_by is_draining m
      ≡ length m
count_all [] = refl
count_all ((id, e) ∷ m) = ground (arith, count_all m)

-- The four counts of `stats` add up to the machines of the pool, and `deficit` is what the target has
-- over those that are filling or ready.
pub stats_lem :
    (p : RunnerPool)
    → let s = stats p in
      (s.filling + s.ready + s.claimed + s.draining ≡ length p.machines)
      × (deficit p ≡ s.size - (s.filling + s.ready))
unfolding stats deficit
stats_lem p = (count_all p.machines, ground (arith, count_usable p.machines))

-- Writing a machine adds at most one usable machine, and none when a usable one is replaced.
usable-set-le :
    (m : JsMap String PooledMachine) (id : String) (e : PooledMachine)
    → usable (JsMap.set m id e) ≤ suc (usable m)
unfolding JsMap.set
usable-set-le [] id e = ground arith
usable-set-le ((j, w) ∷ m) id e = ground (arith, usable-set-le m id e)

usable-replace :
    (m : JsMap String PooledMachine) (id : String) (old e : PooledMachine)
    → JsMap.get m id ≡ some old
    → is_usable old ≡ true
    → usable (JsMap.set m id e) ≤ usable m
unfolding JsMap.set JsMap.get
usable-replace [] id old e g u = cc
usable-replace ((j, w) ∷ m) id old e g u = ground (arith, usable-replace m id old e)

usable-delete-le :
    (m : JsMap String PooledMachine) (id : String) → usable (JsMap.delete m id) ≤ usable m
unfolding JsMap.delete
usable-delete-le [] id = ground arith
usable-delete-le ((j, w) ∷ m) id = ground (arith, usable-delete-le m id)

register-usable :
    (p : RunnerPool) (m : NewMachine) (now : ℕ)
    → usable (register p m now).machines ≤ suc (usable p.machines)
unfolding register
register-usable p m now = usable-set-le p.machines m.machine_id _

set_process_id-usable :
    (p : RunnerPool) (id : String) (process_id : Option String) (old : PooledMachine)
    → JsMap.get p.machines id ≡ some old
    → is_usable old ≡ true
    → usable (set_process_id p id process_id).machines ≤ usable p.machines
unfolding set_process_id
set_process_id-usable p id process_id old e u =
    rw (set_process_id, e) (usable-replace p.machines id old _ e u)

mark_ready-usable :
    (p : RunnerPool) (id : String) → usable (mark_ready p id).0.machines ≤ usable p.machines
unfolding mark_ready
mark_ready-usable p id = elim (Option-cases (JsMap.get p.machines id)) [
  | inl e ↦ rw (mark_ready, e) (omega arith)
  | inr (m, e) ↦ elim (Bool-cases (is_filling m.state)) [
    | inl f ↦
        rw (mark_ready, e, f)
          (usable-replace p.machines id m (record m { state = ready }) e (ground (arith, f)))
    | inr f ↦ rw (mark_ready, e, f) (omega arith)
  ]
]

registered-process :
    (p : RunnerPool) (m : NewMachine) (now : ℕ) (process_id : Option String)
    → usable (set_process_id (register p m now) m.machine_id process_id).machines
      ≤ usable (register p m now).machines
unfolding register
registered-process p m now process_id =
    set_process_id-usable (register p m now) m.machine_id process_id _
      (get-set_self p.machines m.machine_id _) refl

booted-usable :
    (p : RunnerPool) (m : NewMachine) (process_id : Option String) (now : ℕ)
    → usable (add_one p (booted m process_id) now).0.machines ≤ suc (usable p.machines)
unfolding add_one
booted-usable p m process_id now =
    let named = set_process_id (register p m now) m.machine_id process_id in
    ground (
      arith,
      register-usable p m now,
      registered-process p m now process_id,
      mark_ready-usable named m.machine_id,
    )

add_one-usable :
    (p : RunnerPool) (b : Boot) (now : ℕ)
    → usable (add_one p b now).0.machines ≤ suc (usable p.machines)
unfolding add_one forget register
add_one-usable p create_failed now = omega arith
add_one-usable p (no_address id) now = omega (arith, usable-delete-le p.machines id)
add_one-usable p (boot_failed m) now =
    omega
      (arith, usable-delete-le (register p m now).machines m.machine_id, register-usable p m now)
add_one-usable p (booted m process_id) now = booted-usable p m process_id now

pub add_one-options :
    (p : RunnerPool) (b : Boot) (now : ℕ) → (add_one p b now).0.options ≡ p.options
unfolding add_one forget register mark_ready set_process_id
add_one-options p create_failed now = refl
add_one-options p (no_address id) now = refl
add_one-options p (boot_failed m) now = refl
add_one-options p (booted m process_id) now = ground arith

fill-usable :
    (bs : List Boot) (p : RunnerPool) (now : ℕ)
    → usable (fill p bs now).0.machines ≤ max p.options.size (usable p.machines)
unfolding fill deficit
fill-usable [] p now = omega arith
fill-usable (b ∷ bs) p now =
    ground (
      arith,
      add_one-usable p b now,
      add_one-options p b now,
      fill-usable bs (add_one p b now).0 now,
    )

-- `fill` does not overshoot: whatever the platform answers, there are afterwards no more filling and
-- ready machines than the target, or than there were.
pub fill-le :
    (bs : List Boot) (p : RunnerPool) (now : ℕ)
    → let s = stats (fill p bs now).0 in
      s.filling + s.ready ≤ max p.options.size ((stats p).filling + (stats p).ready)
unfolding stats
fill-le bs p now =
    omega (
      arith,
      fill-usable bs p now,
      count_usable (fill p bs now).0.machines,
      count_usable p.machines,
    )
