-- ===== src/Pool/Target.antt =====
-- The fill reaches the target when the platform does what it is asked.
use skrun.Base.{
  ℕ, suc, ◌-◌, ◌≤◌, String, ◌≡◌, refl, Bool, true, false, Option, none, some, List, [], ◌∷◌, ◌==◌,
  string_eq, any, arith, ◌∙◌, subst, sym, ap, length,
}
use skrun.JsMap
use skrun.JsMap.{JsMap, Distinct, values}
use skrun.JsMap.Values.{set-set}
use skrun.JsMap.Laws.{get-set, get-set_self}
use skrun.Pool.{
  PooledMachine, filling, ready, is_filling, is_usable, RunnerPool, NewMachine, register,
  mark_ready, set_process_id, deficit,
}
use skrun.Pool.Depth.{usable, add_one-options}
use skrun.Pool.Upkeep.{Boot, create_failed, no_address, boot_failed, booted, add_one, fill}

usable-set_absent :
    (m : JsMap String PooledMachine) (id : String) (e : PooledMachine)
    → JsMap.get m id ≡ none
    → is_usable e ≡ true
    → usable (JsMap.set m id e) ≡ suc (usable m)
unfolding JsMap.set JsMap.get
usable-set_absent [] id e g u = ground (arith, u)
usable-set_absent ((j, w) ∷ m) id e g u = ground (arith, usable-set_absent m id e)

usable-set_swap :
    (m : JsMap String PooledMachine) (id : String) (old e : PooledMachine)
    → JsMap.get m id ≡ some old
    → is_usable old ≡ true
    → is_usable e ≡ true
    → usable (JsMap.set m id e) ≡ usable m
unfolding JsMap.set JsMap.get
usable-set_swap [] id old e g u u' = cc
usable-set_swap ((j, w) ∷ m) id old e g u u' = ground (arith, usable-set_swap m id old e)

abbrev boots_id : String → Boot → Bool
boots_id id create_failed = false
boots_id id (no_address other) = false
boots_id id (boot_failed m) = false
boots_id id (booted m process_id) = m.machine_id == id

-- The row of a machine that has just been added.
abbrev added_row : NewMachine → Option String → ℕ → PooledMachine
added_row m process_id now = record {
  machine_id = m.machine_id;
  private_ip = m.private_ip;
  claim_token = m.claim_token;
  image_tag = m.image_tag;
  harness6pn = m.harness6pn;
  created_at = now;
  process_id = process_id;
  state = ready;
}

set_process_id_found :
    (p : RunnerPool) (id : String) (process_id : Option String) (e : PooledMachine)
    → JsMap.get p.machines id ≡ some e
    → (set_process_id p id process_id).machines
      ≡ JsMap.set p.machines id (record e { process_id = process_id })
unfolding set_process_id
set_process_id_found p id process_id e g = rw (set_process_id, g) refl

mark_ready_found :
    (p : RunnerPool) (id : String) (e : PooledMachine)
    → JsMap.get p.machines id ≡ some e
    → is_filling e.state ≡ true
    → (mark_ready p id).0.machines ≡ JsMap.set p.machines id (record e { state = ready })
unfolding mark_ready
mark_ready_found p id e g f = rw (mark_ready, g, f) refl

module _ (p : RunnerPool) (m : NewMachine) (process_id : Option String) (now : ℕ) where
  named :
      (set_process_id (register p m now) m.machine_id process_id).machines
      ≡ JsMap.set p.machines m.machine_id (record (added_row m process_id now) { state = filling })
  unfolding register
  named =
      set_process_id_found (register p m now) m.machine_id process_id _
        (get-set_self p.machines m.machine_id _)
      ∙ set-set p.machines m.machine_id _ _

  added :
      (add_one p (booted m process_id) now).0.machines
      ≡ JsMap.set p.machines m.machine_id (added_row m process_id now)
  unfolding add_one
  added =
      let filled : PooledMachine = record (added_row m process_id now) { state = filling } in
      mark_ready_found (set_process_id (register p m now) m.machine_id process_id) m.machine_id
        filled
        (ap (λ ms. JsMap.get ms m.machine_id) named ∙ get-set_self p.machines m.machine_id filled)
        refl
      ∙ ap (λ ms. JsMap.set ms m.machine_id (added_row m process_id now)) named
      ∙ set-set p.machines m.machine_id _ _

booted_added :
    (p : RunnerPool) (m : NewMachine) (process_id : Option String) (now : ℕ)
    → (add_one p (booted m process_id) now).1 ≡ true
unfolding add_one
booted_added p m process_id now = refl

added_deficit :
    (p : RunnerPool) (m : NewMachine) (process_id : Option String) (now : ℕ)
    → JsMap.get p.machines m.machine_id ≡ none
    → deficit (add_one p (booted m process_id) now).0 ≡ deficit p - 1
unfolding deficit
added_deficit p m process_id now fresh = ground (
  arith,
  ap usable (added p m process_id now),
  usable-set_absent p.machines m.machine_id (added_row m process_id now) fresh refl,
  add_one-options p (booted m process_id) now,
)

-- Every machine boots, under an identifier that neither the pool nor another of them has.
abbrev pub AllBoot : JsMap String PooledMachine → List Boot → Type 0
AllBoot ms [] = Unit
AllBoot ms (create_failed ∷ bs) = ⊥
AllBoot ms (no_address id ∷ bs) = ⊥
AllBoot ms (boot_failed m ∷ bs) = ⊥
AllBoot ms (booted m process_id ∷ bs) =
    (JsMap.get ms m.machine_id ≡ none) × (any (boots_id m.machine_id) bs ≡ false) × AllBoot ms bs

set-AllBoot :
    (bs : List Boot) (ms : JsMap String PooledMachine) (id : String) (e : PooledMachine)
    → any (boots_id id) bs ≡ false
    → AllBoot ms bs
    → AllBoot (JsMap.set ms id e) bs
set-AllBoot [] ms id e n h = tt
set-AllBoot (create_failed ∷ bs) ms id e n h = h
set-AllBoot (no_address other ∷ bs) ms id e n h = h
set-AllBoot (boot_failed m ∷ bs) ms id e n h = h
set-AllBoot (booted m process_id ∷ bs) ms id e n (fresh, alone, h) =
    (ground (arith, get-set ms id m.machine_id e), alone, set-AllBoot bs ms id e (ground arith) h)

-- When the platform boots every machine that it is asked for, each under an identifier of its own, as
-- many of them as the deficit are enough for `fill` to leave none.
pub fill_target :
    (bs : List Boot) (p : RunnerPool) (now : ℕ)
    → AllBoot p.machines bs
    → deficit p ≤ length bs
    → deficit (fill p bs now).0 ≡ 0
unfolding fill
fill_target [] p now h le = omega (arith, le)
fill_target (create_failed ∷ bs) p now h le = elim h [ ]
fill_target (no_address id ∷ bs) p now h le = elim h [ ]
fill_target (boot_failed m ∷ bs) p now h le = elim h [ ]
fill_target (booted m process_id ∷ bs) p now (fresh, alone, h) le =
    let p' = (add_one p (booted m process_id) now).0 in
    let wants = added_deficit p m process_id now fresh in
    ground (
      arith,
      wants,
      booted_added p m process_id now,
      fill_target bs p' now (
          subst (λ ms. AllBoot ms bs) (sym (added p m process_id now))
            (set-AllBoot bs p.machines m.machine_id (added_row m process_id now) alone h)),
    )
