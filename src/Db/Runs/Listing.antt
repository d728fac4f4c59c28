-- ===== src/Db/Runs/Listing.antt =====
-- The list of runs, and the runs and environments that are read back.
use mathlib.Core.List.{Perm}
use mathlib.Core.List.Perm
use skrun.Base.{
  ℕ, ◌≤◌, ◌≡◌, refl, String, Bool, ◌&&◌, none, some, List, [], ◌∷◌, ◌==◌, string_eq, nat_eq, leb,
  filter, if◌then◌else◌, subst, All, inl, inr, Bool-cases, Option-cases, arith,
}
use skrun.JsMap
use skrun.JsMap.{values}
use skrun.JsMap.Laws.{get-set, get-set_self}
use skrun.Schema.{Run}
use skrun.Db.{MemoryDb}
use skrun.Db.Runs.{
  NewRun, RunPatch, RunFilters, create_run, patch_run, update_run, get_run, by_name, by_status,
  insert_run, newest_first, limited, list_runs,
}

-- The run passes all the filters.
abbrev pub passes : RunFilters → Run → Bool
passes f r =
    by_name f.agent_id (λ x. x.agent_id) r
    && (by_name f.user_id (λ x. x.user_id) r && by_status f.status r)

-- No run is newer than one before it.
abbrev pub IsSorted : List Run → Type 0
IsSorted [] = Unit
IsSorted (r ∷ l) = All (λ (s : Run). s.created_at ≤ r.created_at) l × IsSorted l

filter_three :
    (p q t : Run → Bool) (l : List Run)
    → filter t (filter q (filter p l)) ≡ filter (λ r. p r && (q r && t r)) l
filter_three p q t [] = refl
filter_three p q t (r ∷ l) = ground (arith, filter_three p q t l)

insert_run-perm : (r : Run) (l : List Run) → Perm (insert_run r l) (r ∷ l)
unfolding insert_run
insert_run-perm r [] = Perm.rfl
insert_run-perm r (s ∷ l) = elim (Bool-cases (leb s.created_at r.created_at)) [
  | inl t ↦ rw t Perm.rfl
  | inr t ↦ rw t (Perm.trans (Perm.cons s (insert_run-perm r l)) (Perm.swap r s l))
]

newest_first-perm : (l : List Run) → Perm (newest_first l) l
unfolding newest_first
newest_first-perm [] = Perm.rfl
newest_first-perm (r ∷ l) =
    Perm.trans (insert_run-perm r (newest_first l)) (Perm.cons r (newest_first-perm l))

insert_run-All :
    (n : ℕ) (r : Run) (l : List Run)
    → r.created_at ≤ n
    → All (λ (s : Run). s.created_at ≤ n) l
    → All (λ (s : Run). s.created_at ≤ n) (insert_run r l)
unfolding insert_run
insert_run-All n r [] h hs = (h, tt)
insert_run-All n r (s ∷ l) h (k, ks) = ground (arith, insert_run-All n r l h ks)

All-le :
    (m n : ℕ) (l : List Run)
    → m ≤ n
    → All (λ (s : Run). s.created_at ≤ m) l
    → All (λ (s : Run). s.created_at ≤ n) l
All-le m n [] h hs = tt
All-le m n (s ∷ l) h (k, ks) = (omega (arith, h, k), All-le m n l h ks)

insert_run-IsSorted : (r : Run) (l : List Run) → IsSorted l → IsSorted (insert_run r l)
unfolding insert_run
insert_run-IsSorted r [] h = (tt, tt)
insert_run-IsSorted r (s ∷ l) (below, h) = elim (Bool-cases (leb s.created_at r.created_at)) [
  | inl t ↦ rw t (
    (ground (arith, t), All-le s.created_at r.created_at l (ground (arith, t)) below),
    (below, h),
  )
  | inr t ↦
      rw t (insert_run-All s.created_at r l (ground (arith, t)) below, insert_run-IsSorted r l h)
]

newest_first-IsSorted : (l : List Run) → IsSorted (newest_first l)
unfolding newest_first
newest_first-IsSorted [] = tt
newest_first-IsSorted (r ∷ l) = insert_run-IsSorted r (newest_first l) (newest_first-IsSorted l)

-- Without a limit, `listRuns` gives the runs that pass all the filters, each as often as it is in the
-- table, and none is newer than one before it; a limit cuts that list and nothing else.
pub list_runs_lem :
    (db : MemoryDb) (f : RunFilters)
    → let all_runs = list_runs db (record f { limit = none }) in
      Perm all_runs (filter (passes f) (values db.runs))
      × IsSorted all_runs
      × (list_runs db f ≡ limited f.limit all_runs)
unfolding list_runs
list_runs_lem db f = (
  subst (λ l. Perm (list_runs db (record f { limit = none })) l)
      (filter_three (by_name f.agent_id (λ x. x.agent_id)) (by_name f.user_id (λ x. x.user_id))
        (by_status f.status) (values db.runs))
      (newest_first-perm _),
  newest_first-IsSorted _,
  refl,
)

-- A run that is created is read back as it was given; a patch of an identifier that is there changes the
-- run of that identifier to the patched one and no other, and one that is not there changes nothing.
pub run_lem :
    (db : MemoryDb) (row : NewRun) (now : ℕ) (id other : String) (p : RunPatch)
    → (get_run (create_run db row now).0 row.id ≡ some (create_run db row now).1)
      × (get_run (update_run db id p).0 other
          ≡ (if id == other then (update_run db id p).1 else get_run db other))
unfolding create_run update_run get_run
run_lem db row now id other p = (
  get-set_self db.runs row.id _,
  elim (Option-cases (JsMap.get db.runs id)) [
    | inl e ↦ ground (arith, e)
    | inr (run, e) ↦ ground (arith, e, get-set db.runs id other (patch_run run p))
  ],
)
