-- ===== src/Pool/Claims.antt =====
-- A claimed machine, through any further events of the pool.
use skrun.Base.{
  ℕ, String, ◌≡◌, refl, Bool, true, false, Option, none, some, List, [], ◌∷◌, ◌==◌, string_eq, any,
  inl, inr, Option-cases, arith,
}
use skrun.JsMap
use skrun.JsMap.{JsMap, Distinct}
use skrun.JsMap.Laws.{get-set, get-set_ne, get-delete}
use skrun.Pool.{
  PooledMachine, ready, draining, RunnerPool, NewMachine, register, mark_ready, set_process_id,
  take_ready, mark_draining, forget,
}
use skrun.Pool.Keyed.{
  is_retired, names, get-take_first, take_first-Keyed, take_first-Distinct, take_first_claims,
  take_first_state, IsPool, put-IsPool, mark_ready-IsPool, set_process_id-IsPool,
  mark_draining-IsPool, forget-IsPool,
}

-- What happens to the pool, in the order of the single-threaded process.
pub data Event : Type 0 where
  registered : (m : NewMachine) (now : ℕ) → Event
  marked_ready : (id : String) → Event
  identified : (id : String) (process_id : Option String) → Event
  taken : Event
  marked_draining : (id : String) → Event
  forgotten : (id : String) → Event

unfoldable pub step : RunnerPool → Event → RunnerPool
step p (registered m now) = register p m now
step p (marked_ready id) = (mark_ready p id).0
step p (identified id process_id) = set_process_id p id process_id
step p taken = (take_ready p).0
step p (marked_draining id) = (mark_draining p id).0
step p (forgotten id) = (forget p id).0

-- The machine that an event hands to a run.
unfoldable pub handed : RunnerPool → Event → Option PooledMachine
handed p (registered m now) = none
handed p (marked_ready id) = none
handed p (identified id process_id) = none
handed p taken = (take_ready p).1
handed p (marked_draining id) = none
handed p (forgotten id) = none

abbrev pub registers : String → Event → Bool
registers id (registered m now) = m.machine_id == id
registers id (marked_ready other) = false
registers id (identified other process_id) = false
registers id taken = false
registers id (marked_draining other) = false
registers id (forgotten other) = false

module _ (p : RunnerPool) (v : IsPool p) where
  step-IsPool : (e : Event) → IsPool (step p e)
  unfolding step register take_ready
  step-IsPool (registered m now) = put-IsPool p v m.machine_id _ refl
  step-IsPool (marked_ready id) = mark_ready-IsPool p v id
  step-IsPool (identified id process_id) = set_process_id-IsPool p v id process_id
  step-IsPool taken = record {
    distinct = take_first-Distinct p.machines v.keyed v.distinct;
    keyed = take_first-Keyed p.machines v.keyed;
  }
  step-IsPool (marked_draining id) = mark_draining-IsPool p v id
  step-IsPool (forgotten id) = forget-IsPool p v id

  -- No event offers or hands out a machine that is past being offered, unless it registers it anew.
  step-retired :
      (id : String) (e : Event)
      → is_retired (JsMap.get p.machines id) ≡ true
      → registers id e ≡ false
      → (is_retired (JsMap.get (step p e).machines id) ≡ true) × (names id (handed p e) ≡ false)
  unfolding step handed register mark_ready set_process_id take_ready mark_draining forget
  step-retired id (registered m now) r n =
      (rw (get-set_ne p.machines m.machine_id id _ (λ q. ground (arith, q))) r, refl)
  step-retired id (marked_ready other) r n = elim (Option-cases (JsMap.get p.machines other)) [
    | inl e ↦ (ground arith, refl)
    | inr (m, e) ↦ (ground (arith, get-set p.machines other id (record m { state = ready })), refl)
  ]
  step-retired id (identified other process_id) r n =
      elim (Option-cases (JsMap.get p.machines other)) [
        | inl e ↦ (ground arith, refl)
        | inr (m, e) ↦ (
          ground (arith, get-set p.machines other id (record m { process_id = process_id })),
          refl,
        )
      ]
  step-retired id taken r n = ground (arith, get-take_first p.machines id v.keyed v.distinct r)
  step-retired id (marked_draining other) r n = elim (Option-cases (JsMap.get p.machines other)) [
    | inl e ↦ (ground arith, refl)
    | inr (m, e) ↦
        (ground (arith, get-set p.machines other id (record m { state = draining })), refl)
  ]
  step-retired id (forgotten other) r n = ground (arith, get-delete p.machines other id v.distinct)

unfoldable pub hand_outs : RunnerPool → List Event → List (Option PooledMachine)
hand_outs p [] = []
hand_outs p (e ∷ es) = handed p e ∷ hand_outs (step p e) es

retired_stays :
    (es : List Event) (p : RunnerPool) (id : String)
    → IsPool p
    → is_retired (JsMap.get p.machines id) ≡ true
    → any (registers id) es ≡ false
    → any (names id) (hand_outs p es) ≡ false
unfolding hand_outs
retired_stays [] p id v r n = refl
retired_stays (e ∷ es) p id v r n =
    ground (arith, step-retired p v id e r, retired_stays es (step p e) id (step-IsPool p v e))

-- In a pool keyed by identifier, a machine that `takeReady` hands to a run is handed to no other run by
-- any further events, in any order, as long as none of them registers its identifier; and a machine that
-- is claimed, draining or unknown is handed to none.
pub claimed_once :
    (p : RunnerPool) (m : PooledMachine) (id : String) (es : List Event)
    → IsPool p
    → (take_ready p).1 ≡ some m
    → is_retired (JsMap.get p.machines id) ≡ true
    → any (registers m.machine_id) es ≡ false
    → any (registers id) es ≡ false
    → (any (names m.machine_id) (hand_outs (take_ready p).0 es) ≡ false)
      × (any (names id) (hand_outs p es) ≡ false)
unfolding step take_ready
claimed_once p m id es v e r n n' = (
  retired_stays es (take_ready p).0 m.machine_id (step-IsPool p v taken)
      (ground (
        arith,
        take_first_claims p.machines m v.keyed v.distinct e,
        take_first_state p.machines m e,
      ))
      n,
  retired_stays es p id v r n',
)
