-- ===== src/Pool/Keyed.antt =====
-- The pool's map is keyed by the machines' identifiers, and every operation keeps it so.
use skrun.Base.{
  String, ◌≡◌, refl, Bool, true, false, not, ◌||◌, Option, none, some, [], ◌∷◌, ◌==◌, string_eq,
  inl, inr, Bool-cases, Option-cases, arith, subst,
}
use skrun.JsMap
use skrun.JsMap.{JsMap, Distinct}
use skrun.JsMap.Laws.{set-Distinct, delete-Distinct}
use skrun.Pool.{
  PooledMachine, claimed, is_filling, is_ready, RunnerPool, mark_ready, set_process_id, take_first,
  mark_draining, forget,
}

-- The machine is past being offered: a run has it, or it is being disposed of, or it is gone.
abbrev pub is_retired : Option PooledMachine → Bool
is_retired none = true
is_retired (some m) = not (is_filling m.state || is_ready m.state)

-- The map's keys are the identifiers of the machines.
abbrev pub Keyed : JsMap String PooledMachine → Type 0
Keyed [] = Unit
Keyed ((id, m) ∷ ms) = (m.machine_id ≡ id) × Keyed ms

abbrev pub names : String → Option PooledMachine → Bool
names id none = false
names id (some m) = m.machine_id == id

pub get-take_first :
    (ms : JsMap String PooledMachine) (id : String)
    → Keyed ms
    → Distinct ms
    → is_retired (JsMap.get ms id) ≡ true
    → (JsMap.get (take_first ms).0 id ≡ JsMap.get ms id) × (names id (take_first ms).1 ≡ false)
unfolding take_first JsMap.get
get-take_first [] id k d r = (refl, refl)
get-take_first ((j, m) ∷ ms) id (k, ks) (fresh, d) r = ground (arith, get-take_first ms id ks d)

pub set-Keyed :
    (ms : JsMap String PooledMachine) (m : PooledMachine)
    → Keyed ms
    → Keyed (JsMap.set ms m.machine_id m)
unfolding JsMap.set
set-Keyed [] m k = (refl, tt)
set-Keyed ((j, w) ∷ ms) m (k, ks) = ground (arith, set-Keyed ms m ks)

pub delete-Keyed :
    (ms : JsMap String PooledMachine) (id : String) → Keyed ms → Keyed (JsMap.delete ms id)
unfolding JsMap.delete
delete-Keyed [] id k = tt
delete-Keyed ((j, w) ∷ ms) id (k, ks) = ground (arith, delete-Keyed ms id ks)

pub get-Keyed :
    (ms : JsMap String PooledMachine) (id : String) (m : PooledMachine)
    → Keyed ms
    → JsMap.get ms id ≡ some m
    → m.machine_id ≡ id
unfolding JsMap.get
get-Keyed [] id m k e = cc
get-Keyed ((j, w) ∷ ms) id m (k, ks) e = ground (arith, get-Keyed ms id m ks)

pub take_first-Keyed : (ms : JsMap String PooledMachine) → Keyed ms → Keyed (take_first ms).0
unfolding take_first
take_first-Keyed [] k = tt
take_first-Keyed ((j, w) ∷ ms) (k, ks) = ground (arith, take_first-Keyed ms ks)

pub take_first-Distinct :
    (ms : JsMap String PooledMachine) → Keyed ms → Distinct ms → Distinct (take_first ms).0
unfolding take_first
take_first-Distinct [] k d = tt
take_first-Distinct ((j, w) ∷ ms) (k, ks) (fresh, d) =
    ground (arith, take_first-Distinct ms ks d, get-take_first ms j ks d)

-- A pool whose map is one.
pub record IsPool (p : RunnerPool) : Type 0 where
  pub distinct : Distinct p.machines
  pub keyed : Keyed p.machines

module _ (p : RunnerPool) (v : IsPool p) where
  pub put-IsPool :
      (id : String) (m : PooledMachine)
      → m.machine_id ≡ id
      → IsPool (record p { machines = JsMap.set p.machines id m })
  put-IsPool id m k = record {
    distinct = set-Distinct p.machines id m v.distinct;
    keyed = subst (λ j. Keyed (JsMap.set p.machines j m)) k (set-Keyed p.machines m v.keyed);
  }

  pub mark_ready-IsPool : (id : String) → IsPool (mark_ready p id).0
  unfolding mark_ready
  mark_ready-IsPool id = elim (Option-cases (JsMap.get p.machines id)) [
    | inl e ↦ rw (mark_ready, e) v
    | inr (m, e) ↦ elim (Bool-cases (is_filling m.state)) [
      | inl f ↦ rw (mark_ready, e, f) (put-IsPool id _ (get-Keyed p.machines id m v.keyed e))
      | inr f ↦ rw (mark_ready, e, f) v
    ]
  ]

  pub set_process_id-IsPool :
      (id : String) (process_id : Option String) → IsPool (set_process_id p id process_id)
  unfolding set_process_id
  set_process_id-IsPool id process_id = elim (Option-cases (JsMap.get p.machines id)) [
    | inl e ↦ rw (set_process_id, e) v
    | inr (m, e) ↦ rw (set_process_id, e) (put-IsPool id _ (get-Keyed p.machines id m v.keyed e))
  ]

  pub mark_draining-IsPool : (id : String) → IsPool (mark_draining p id).0
  unfolding mark_draining
  mark_draining-IsPool id = elim (Option-cases (JsMap.get p.machines id)) [
    | inl e ↦ rw (mark_draining, e) v
    | inr (m, e) ↦ rw (mark_draining, e) (put-IsPool id _ (get-Keyed p.machines id m v.keyed e))
  ]

  pub forget-IsPool : (id : String) → IsPool (forget p id).0
  unfolding forget
  forget-IsPool id = record {
    distinct = delete-Distinct p.machines id v.distinct;
    keyed = delete-Keyed p.machines id v.keyed;
  }

pub take_first_claims :
    (ms : JsMap String PooledMachine) (m : PooledMachine)
    → Keyed ms
    → Distinct ms
    → (take_first ms).1 ≡ some m
    → JsMap.get (take_first ms).0 m.machine_id ≡ some m
unfolding take_first JsMap.get
take_first_claims [] m k d e = ground arith
take_first_claims ((j, w) ∷ ms) m (k, ks) (fresh, d) e =
    ground (arith, take_first_claims ms m ks d, get-take_first ms j ks d)

pub take_first_state :
    (ms : JsMap String PooledMachine) (m : PooledMachine)
    → (take_first ms).1 ≡ some m
    → m.state ≡ claimed
unfolding take_first
take_first_state [] m e = ground arith
take_first_state ((j, w) ∷ ms) m e = ground (arith, take_first_state ms m)
