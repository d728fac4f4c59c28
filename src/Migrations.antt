-- ===== src/Migrations.antt =====
-- packages/api/src/db/migrations-runner.ts: the runner that brings a PostgreSQL schema up to date at
-- boot. PostgreSQL is a parameter: `exec` is a migration's text run in a transaction of its own, which
-- answers `none` when it fails and is then rolled back, and `has_agents` tells whether the table
-- `agents` is there. The lint's regular expressions are a parameter too. The advisory lock makes a boot
-- one step of the others'.
pub mod Loop
pub mod Recovery
use skrun.Base.{
  ℕ, ◌+◌, String, Bool, true, false, not, ◌&&◌, Option, none, some, List, [], ◌∷◌, ◌++◌, string_eq,
  contains, if◌then◌else◌, length,
}

pub record Migration : Type 0 where
  pub name : String
  pub sql : String

pub record LintError : Type 0 where
  pub kind : String
  pub message : String

-- The migrated tables, and the names in `_skrun_migrations` when that table is there.
pub record Database (Tables : Type 0) : Type 0 where
  pub tables : Tables
  pub tracking : Option (List String)

pub record RunResult : Type 0 where
  pub applied : ℕ
  pub backfilled : ℕ
  pub skipped : ℕ

pub data Outcome : Type 0 where
  done : RunResult → Outcome
  lint_failed : List LintError → Outcome
  migration_failed : String → Outcome

-- `INSERT ... ON CONFLICT DO NOTHING`
unfoldable pub insert_name : List String → String → List String
insert_name names name = if contains names name then names else names ++ name ∷ []

-- `lintAllMigrations`: the violations of all the files.
unfoldable pub lint_all : (Migration → List LintError) → List Migration → List LintError
lint_all lint [] = []
lint_all lint (m ∷ ms) = lint m ++ lint_all lint ms

-- The loop of the backfill.
unfoldable pub record_all : List String → List Migration → List String
record_all names [] = names
record_all names (m ∷ ms) = record_all (insert_name names m.name) ms

abbrev pub names_or_none : Option (List String) → List String
names_or_none none = []
names_or_none (some names) = names

abbrev pub is_absent : Option (List String) → Bool
is_absent none = true
is_absent (some names) = false

abbrev pub count_applied : RunResult → RunResult
count_applied r = record r { applied = r.applied + 1 }

abbrev pub count_skipped : RunResult → RunResult
count_skipped r = record r { skipped = r.skipped + 1 }

module _ {Tables : Type 0} (exec : String → Tables → Option Tables) where
  -- The loop that applies: `names` is the tracking table, `applied_set` what was in it before.
  unfoldable pub apply_loop :
      List String → List Migration → Tables → List String → RunResult → Database Tables × Outcome
  apply_loop applied_set [] tables names counts =
      (record { tables = tables; tracking = some names }, done counts)
  apply_loop applied_set (m ∷ ms) tables names counts = elim (contains applied_set m.name) [
    | true ↦ apply_loop applied_set ms tables names (count_skipped counts)
    | false ↦ elim (exec m.sql tables) [
      | none ↦ (record { tables = tables; tracking = some names }, migration_failed m.name)
      | some tables' ↦
          apply_loop applied_set ms tables' (insert_name names m.name) (count_applied counts)
    ]
  ]

module _ {Tables : Type 0} (exec : String → Tables → Option Tables) (has_agents : Tables → Bool)
    (lint : Migration → List LintError) where
  -- From the probe on: the tracking table is made, filled where the database predates it, and read.
  unfoldable pub run_linted : List Migration → Database Tables → Database Tables × Outcome
  unfolding apply_loop record_all
  run_linted migrations db =
      let needs_backfill = has_agents db.tables && is_absent db.tracking in
      let before = names_or_none db.tracking in
      let names = if needs_backfill then record_all before migrations else before in
      apply_loop exec names migrations db.tables names (record {
        applied = 0;
        backfilled = if needs_backfill then length migrations else 0;
        skipped = 0;
      })

  -- The violations stop the boot before the database is touched.
  unfoldable pub run_migrations : List Migration → Database Tables → Database Tables × Outcome
  unfolding run_linted lint_all
  run_migrations migrations db = elim (lint_all lint migrations) [
    | [] ↦ run_linted migrations db
    | first ∷ more ↦ (db, lint_failed (first ∷ more))
  ]
