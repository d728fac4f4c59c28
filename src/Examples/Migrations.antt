-- ===== src/Examples/Migrations.antt =====
-- The migration runner's theorems at a boot that loses its connection.
use skrun.Base.{
  ◌≡◌, refl, ℕ, String, Bool, true, false, Option, none, some, List, [], ◌∷◌, ◌+◌, ◌==◌, string_eq,
  string_discrete, if◌then◌else◌,
}
use skrun.Migrations.{
  Migration, LintError, Database, run_migrations, run_linted, apply_loop, lint_all, insert_name,
}
use skrun.Migrations.Recovery.{boot_after_failure}

-- The tables are the number of statements that ran.
abbrev exec : String → ℕ → Option ℕ
exec sql tables = some (tables + 1)

-- The connection is lost at the second file.
abbrev exec_lost : String → ℕ → Option ℕ
exec_lost sql tables = if sql == "ALTER TABLE agents" then none else some (tables + 1)

exec_lost-exec : (sql : String) (t t' : ℕ) → exec_lost sql t ≡ some t' → exec sql t ≡ some t'
exec_lost-exec sql t t' h =
    elim (sql == "ALTER TABLE agents")
        as (λ b. (if b then none else some (t + 1)) ≡ some t' → some (t + 1) ≡ some t') [
          | true ↦ λ k. cc
          | false ↦ λ k. k
        ]
      h

abbrev files : List Migration
files =
    record { name = "001_initial.sql"; sql = "CREATE TABLE IF NOT EXISTS agents" }
    ∷ record { name = "002_agents.sql"; sql = "ALTER TABLE agents" }
    ∷ []

abbrev clean : Migration → List LintError
clean m = []

abbrev no_agents : ℕ → Bool
no_agents tables = false

abbrev fresh : Database ℕ
fresh = record { tables = 0; tracking = none }

boot_after_failure_example :
    (run_migrations exec no_agents clean files
      (run_migrations exec_lost no_agents clean files fresh).0).0
    ≡ (run_migrations exec no_agents clean files fresh).0
unfolding run_migrations run_linted apply_loop lint_all string_discrete insert_name
boot_after_failure_example =
    boot_after_failure exec_lost exec no_agents clean files fresh exec_lost-exec
      ((cc, tt), (tt, tt)) refl
