-- ===== src/Pool/Drain.antt =====
-- What the drain of stale machines leaves in the pool.
use skrun.Base.{
  ℕ, String, ◌≡◌, refl, Bool, false, ◌&&◌, none, some, List, [], ◌∷◌, ◌==◌, string_eq,
  if◌then◌else◌, any, inl, inr, Bool-cases, Option-cases, arith, subst, sym,
}
use skrun.JsMap
use skrun.JsMap.{JsMap, Distinct, values}
use skrun.JsMap.Laws.{get-delete, delete-Distinct}
use skrun.JsMap.Values.{delete-set}
use skrun.Pool.{PooledMachine, RunnerPool, RunnerPoolOptions, mark_draining, forget}
use skrun.Pool.Keyed.{IsPool, Keyed}
use skrun.Pool.Upkeep.{is_drainable, drain_one, drain_loop, drain_stale}

abbrev drains_id : RunnerPoolOptions → ℕ → String → PooledMachine → Bool
drains_id o now id m = is_drainable o now m && m.machine_id == id

-- Marking and forgetting a machine is removing it.
forget-mark_draining :
    (p : RunnerPool) (id : String)
    → (forget (mark_draining p id).0 id).0.machines ≡ JsMap.delete p.machines id
unfolding forget mark_draining
forget-mark_draining p id = elim (Option-cases (JsMap.get p.machines id)) [
  | inl e ↦ rw (forget, mark_draining, e) refl
  | inr (m, e) ↦ rw (forget, mark_draining, e) (delete-set p.machines id _)
]

forget-options :
    (p : RunnerPool) (id : String) → (forget (mark_draining p id).0 id).0.options ≡ p.options
unfolding forget mark_draining
forget-options p id = elim (Option-cases (JsMap.get p.machines id)) [
  | inl e ↦ rw (forget, mark_draining, e) refl
  | inr (m, e) ↦ rw (forget, mark_draining, e) refl
]

drain_loop-get :
    (ms : List PooledMachine) (p : RunnerPool) (now : ℕ) (id : String)
    → Distinct p.machines
    → JsMap.get (drain_loop p ms now).0.machines id
      ≡ (if any (drains_id p.options now id) ms then none else JsMap.get p.machines id)
unfolding drain_loop
drain_loop-get [] p now id d = refl
drain_loop-get (m ∷ ms) p now id d = elim (Bool-cases (is_drainable p.options now m)) [
  | inl t ↦ ground (
    arith,
    t,
    drain_loop-get ms (drain_one p m.machine_id) now id (
        subst (λ k. Distinct k) (sym (forget-mark_draining p m.machine_id))
          (delete-Distinct p.machines m.machine_id d)),
    forget-mark_draining p m.machine_id,
    forget-options p m.machine_id,
    get-delete p.machines m.machine_id id d,
  )
  | inr t ↦ ground (arith, t, drain_loop-get ms p now id d)
]

-- Of the machines of a keyed map, the one with the identifier is picked.
any-get :
    (m : JsMap String PooledMachine) (o : RunnerPoolOptions) (now : ℕ) (id : String)
    → Keyed m
    → Distinct m
    → any (drains_id o now id) (values m)
      ≡ elim (JsMap.get m id) [ none ↦ false | some e ↦ is_drainable o now e ]
unfolding JsMap.get
any-get [] o now id k d = refl
any-get ((j, w) ∷ m) o now id (k, ks) (fresh, d) = ground (arith, any-get m o now id ks d)

-- After `drainStale`, a pool keyed by identifier has of each machine what it had, but for the filling
-- and ready ones that are of another image or harness address or past the idle limit, which are gone:
-- a claimed or draining machine is never touched.
pub drain_stale_lem :
    (p : RunnerPool) (now : ℕ) (id : String)
    → IsPool p
    → JsMap.get (drain_stale p now).0.machines id ≡ elim (JsMap.get p.machines id) [
      | none ↦ none
      | some m ↦ if is_drainable p.options now m then none else some m
    ]
unfolding drain_stale
drain_stale_lem p now id v = ground (
  arith,
  drain_loop-get (values p.machines) p now id v.distinct,
  any-get p.machines p.options now id v.keyed v.distinct,
)
