-- ===== src/Pool/Reconcile.antt =====
-- What the reconciliation with the platform forgets and destroys.
use text.Mathlib.Text.{starts_with}
use skrun.Base.{
  ℕ, String, ◌≡◌, refl, Bool, true, false, not, ◌&&◌, none, some, List, [], ◌∷◌, ◌==◌, string_eq,
  if◌then◌else◌, any, inl, inr, Bool-cases, arith, contains,
}
use skrun.JsMap
use skrun.JsMap.{JsMap, Distinct, values, has}
use skrun.JsMap.Laws.{get-delete, delete-Distinct}
use skrun.Pool.{PooledMachine, RunnerPool, RunnerPoolOptions, forget}
use skrun.Pool.Keyed.{IsPool, Keyed}
use skrun.Pool.Upkeep.{LiveMachine, forget_missing, is_disposable, orphans, live_ids, reconcile}

abbrev misses_id : List String → String → PooledMachine → Bool
misses_id ids id m = not (contains ids m.machine_id) && m.machine_id == id

forget_missing-get :
    (ms : List PooledMachine) (p : RunnerPool) (ids : List String) (id : String)
    → Distinct p.machines
    → JsMap.get (forget_missing p ids ms).machines id
      ≡ (if any (misses_id ids id) ms then none else JsMap.get p.machines id)
unfolding forget_missing forget
forget_missing-get [] p ids id d = refl
forget_missing-get (m ∷ ms) p ids id d = elim (Bool-cases (contains ids m.machine_id)) [
  | inl t ↦ ground (arith, t, forget_missing-get ms p ids id d)
  | inr t ↦ ground (
    arith,
    t,
    forget_missing-get ms (forget p m.machine_id).0 ids id
        (delete-Distinct p.machines m.machine_id d),
    get-delete p.machines m.machine_id id d,
  )
]

any-get :
    (m : JsMap String PooledMachine) (ids : List String) (id : String)
    → Keyed m
    → Distinct m
    → any (misses_id ids id) (values m)
      ≡ elim (JsMap.get m id) [ none ↦ false | some e ↦ not (contains ids id) ]
unfolding JsMap.get
any-get [] ids id k d = refl
any-get ((j, w) ∷ m) ids id (k, ks) (fresh, d) = ground (arith, any-get m ids id ks d)

-- The machine with the identifier is one of the list, is named as the pool's, and is disposable.
abbrev pub is_orphan : RunnerPoolOptions → ℕ → String → LiveMachine → Bool
is_orphan o now id m = m.id == id && (starts_with m.name "skrun-pool-" && is_disposable o now m)

contains-orphans :
    (live : List LiveMachine) (p : RunnerPool) (now : ℕ) (id : String)
    → contains (orphans p live now) id
      ≡ (any (is_orphan p.options now id) live && not (has p.machines id))
unfolding orphans
contains-orphans [] p now id = refl
contains-orphans (m ∷ live) p now id = ground (arith, contains-orphans live p now id)

forget_missing-options :
    (ms : List PooledMachine) (p : RunnerPool) (ids : List String)
    → (forget_missing p ids ms).options ≡ p.options
unfolding forget_missing forget
forget_missing-options [] p ids = refl
forget_missing-options (m ∷ ms) p ids = elim (Bool-cases (contains ids m.machine_id)) [
  | inl t ↦ ground (arith, t, forget_missing-options ms p ids)
  | inr t ↦ ground (arith, t, forget_missing-options ms (forget p m.machine_id).0 ids)
]

orphan_listed :
    (live : List LiveMachine) (o : RunnerPoolOptions) (now : ℕ) (id : String)
    → any (is_orphan o now id) live ≡ true
    → contains (live_ids live) id ≡ true
orphan_listed [] o now id h = cc
orphan_listed (m ∷ live) o now id h = ground (arith, orphan_listed live o now id)

-- When the platform lists its machines, `reconcile` keeps of a pool keyed by identifier exactly the
-- machines that are listed, and destroys exactly the listed machines that carry the pool's name, are
-- suspended past the idle limit or started past four times the run limit, and are not its own.
pub reconcile_lem :
    (p : RunnerPool) (live : List LiveMachine) (now : ℕ) (id : String)
    → IsPool p
    → let (p', destroyed) = reconcile p (some live) now in
      (JsMap.get p'.machines id
        ≡ (if contains (live_ids live) id then JsMap.get p.machines id else none))
      × (contains destroyed id ≡ (any (is_orphan p.options now id) live && not (has p.machines id)))
unfolding reconcile
reconcile_lem p live now id v =
    let known = forget_missing p (live_ids live) (values p.machines) in
    ground (
      arith,
      forget_missing-get (values p.machines) p (live_ids live) id v.distinct,
      any-get p.machines (live_ids live) id v.keyed v.distinct,
      contains-orphans live known now id,
      forget_missing-options (values p.machines) p (live_ids live),
      orphan_listed live p.options now id,
    )
