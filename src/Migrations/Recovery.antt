-- ===== src/Migrations/Recovery.antt =====
-- Booting again after a boot, and after one that failed.
use skrun.Base.{
  ℕ, ◌+◌, ◌≡◌, refl, sym, ap, ◌∙◌, subst, String, Bool, false, ◌&&◌, Option, some, List, [], ◌∷◌,
  if◌then◌else◌, length, arith, Bool-cases, inl, inr, ◌⊎◌, ◌≢◌,
}
use skrun.Migrations.{
  Migration, LintError, Database, RunResult, Outcome, done, lint_failed, migration_failed,
  record_all, apply_loop, run_linted, run_migrations, lint_all, names_or_none, is_absent,
}
use skrun.Migrations.Loop.{
  DistinctNames, SameFor, ReadFrom, Ended, from, loop_tracks, apply_loop_idle, apply_loop_done,
  resume,
}

List-cases {ℓ} : {A : Type ℓ} (l : List A) → (l ≡ []) ⊎ ((x : A) × (xs : List A) × (l ≡ x ∷ xs))
List-cases [] = inl refl
List-cases (x ∷ xs) = inr (x, xs, refl)

SameFor-refl : (a : List String) (ms : List Migration) → SameFor a a ms
SameFor-refl a [] = tt
SameFor-refl a (m ∷ ms) = (refl, SameFor-refl a ms)

ReadFrom-refl : (a : List String) (ms : List Migration) → ReadFrom a a ms
ReadFrom-refl a [] = tt
ReadFrom-refl a (m ∷ ms) = (λ h. h, ReadFrom-refl a ms)

abbrev fresh_counts : ℕ → RunResult
fresh_counts n = record { applied = 0; backfilled = n; skipped = 0 }

ended_form :
    {Tables : Type 0} (db : Database Tables) (n : ℕ)
    → is_absent db.tracking ≡ false
    → ◌≡◌ {A = Database Tables × Outcome}
        (
          record { tables = db.tables; tracking = some (names_or_none db.tracking) },
          done (record { applied = 0; backfilled = 0; skipped = 0 + n }),
        )
        (db, done (record { applied = 0; backfilled = 0; skipped = n }))
ended_form db n e = ground (arith, e)

module _ {Tables : Type 0} (exec : String → Tables → Option Tables) (has_agents : Tables → Bool)
    (lint : Migration → List LintError) where
  -- The names that the loop of a boot starts from, and how many the backfill recorded.
  abbrev start : List Migration → Database Tables → List String × ℕ
  start ms db =
      if has_agents db.tables && is_absent db.tracking
      then (record_all (names_or_none db.tracking) ms, length ms)
      else (names_or_none db.tracking, 0)

  run_linted-loop :
      (ms : List Migration) (db : Database Tables)
      → run_linted exec has_agents lint ms db
        ≡ apply_loop exec
            (start ms db).0
            ms
            db.tables
            (start ms db).0
            (fresh_counts (start ms db).1)
  unfolding run_linted
  run_linted-loop ms db = elim (Bool-cases (has_agents db.tables && is_absent db.tracking)) [
    | inl e ↦ rw (run_linted, e) refl
    | inr e ↦ rw (run_linted, e) refl
  ]

  start_tracked :
      (ms : List Migration) (db : Database Tables)
      → is_absent db.tracking ≡ false
      → start ms db ≡ (names_or_none db.tracking, 0)
  start_tracked ms db e = ground (arith, e)

  run_passed :
      (ms : List Migration) (db : Database Tables)
      → lint_all lint ms ≡ []
      → run_migrations exec has_agents lint ms db ≡ run_linted exec has_agents lint ms db
  unfolding run_migrations
  run_passed ms db e = rw (run_migrations, e) refl

  run_refused :
      (ms : List Migration) (db : Database Tables) (first : LintError) (more : List LintError)
      → lint_all lint ms ≡ first ∷ more
      → run_migrations exec has_agents lint ms db ≡ (db, lint_failed (first ∷ more))
  unfolding run_migrations
  run_refused ms db first more e = rw (run_migrations, e) refl

  -- A boot that ends otherwise than by the lint has passed it.
  lint_passed :
      (ms : List Migration) (db : Database Tables)
      → ((errors : List LintError)
          → (run_migrations exec has_agents lint ms db).1 ≢ lint_failed errors)
      → lint_all lint ms ≡ []
  lint_passed ms db ne = elim (List-cases (lint_all lint ms)) [
    | inl e ↦ e
    | inr (first, more, e) ↦
        absurd (ne (first ∷ more) (ap (λ res. res.1) (run_refused ms db first more e)))
  ]

  -- The loop that a boot comes down to.
  run-loop :
      (ms : List Migration) (db : Database Tables)
      → lint_all lint ms ≡ []
      → run_migrations exec has_agents lint ms db
        ≡ apply_loop exec
            (start ms db).0
            ms
            db.tables
            (start ms db).0
            (fresh_counts (start ms db).1)
  run-loop ms db e = run_passed ms db e ∙ run_linted-loop ms db

module _ {Tables : Type 0} (first later : String → Tables → Option Tables)
    (has_agents : Tables → Bool) (lint : Migration → List LintError) (ms : List Migration)
    (db : Database Tables) where
  first_tracked :
      lint_all lint ms ≡ []
      → is_absent (run_migrations first has_agents lint ms db).0.tracking ≡ false
  first_tracked passed =
      rw (run-loop first has_agents lint ms db passed) (loop_tracks first _ ms db.tables _ _)

  -- The state that the first boot leaves, booted again.
  second-loop :
      lint_all lint ms ≡ []
      → let db' = (run_migrations first has_agents lint ms db).0 in
        run_migrations later has_agents lint ms db'
        ≡ apply_loop later
            (names_or_none db'.tracking)
            ms
            db'.tables
            (names_or_none db'.tracking)
            (fresh_counts 0)
  second-loop passed =
      let db' = (run_migrations first has_agents lint ms db).0 in
      let again = run-loop later has_agents lint ms db' passed in
      rw (start_tracked later has_agents lint ms db' (first_tracked passed)) at again

  -- A boot that ends has accounted for every migration, as applied or as skipped; and a boot after it,
  -- whatever its connection does, changes nothing, and skips them all.
  pub boot_again :
      {r : RunResult}
      → (run_migrations first has_agents lint ms db).1 ≡ done r
      → let db' = (run_migrations first has_agents lint ms db).0 in
        (r.applied + r.skipped ≡ length ms)
        × (run_migrations later has_agents lint ms db'
            ≡ (db', done (record { applied = 0; backfilled = 0; skipped = length ms })))
  boot_again {r} ended =
      let passed = lint_passed first has_agents lint ms db (λ errors q. cc (ended, q)) in
      let loop = run-loop first has_agents lint ms db passed in
      let db' = (run_migrations first has_agents lint ms db).0 in
      let names = (start first has_agents lint ms db).0 in
      let ends : Ended first db' ms (fresh_counts (start first has_agents lint ms db).1) r =
        rw loop (
          apply_loop_done first names ms db.tables names
            (fresh_counts (start first has_agents lint ms db).1) r (ReadFrom-refl names ms)
            (rw loop at ended)) in
      (
        omega (arith, ends.1),
        second-loop passed
            ∙ apply_loop_idle later (names_or_none db'.tracking) ms db'.tables
                (names_or_none db'.tracking) (fresh_counts 0) ends.0
            ∙ ended_form db' (length ms) (first_tracked passed),
      )

  -- A boot that failed at some migration, and a second one that gets through what the first did, such as
  -- after a lost connection: the second leaves the tables and the names that it would have left alone.
  pub boot_after_failure :
      ((sql : String) (t t' : Tables) → first sql t ≡ some t' → later sql t ≡ some t')
      → DistinctNames ms
      → {x : String} → (run_migrations first has_agents lint ms db).1 ≡ migration_failed x
      → (run_migrations later has_agents lint ms (run_migrations first has_agents lint ms db).0).0
        ≡ (run_migrations later has_agents lint ms db).0
  boot_after_failure extends distinct {x} failed =
      let passed = lint_passed first has_agents lint ms db (λ errors q. cc (failed, q)) in
      let loop = run-loop first has_agents lint ms db passed in
      let (names, filled) = start first has_agents lint ms db in
      ap (λ (res : Database Tables × Outcome). res.0) (second-loop passed)
      ∙ subst
          (λ (res : Database Tables × Outcome).
            from later res.0 ms (fresh_counts 0) ≡ (run_migrations later has_agents lint ms db).0)
          (sym loop)
          (resume first later extends names ms db.tables names (fresh_counts filled)
              (fresh_counts 0) (fresh_counts filled) x distinct (SameFor-refl names ms)
              (rw loop at failed)
            ∙ sym (
                ap (λ (res : Database Tables × Outcome). res.0)
                  (run-loop later has_agents lint ms db passed)))
