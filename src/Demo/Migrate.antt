-- ===== src/Demo/Migrate.antt =====
-- examples/demo-api/cmd/migrate/main.go: a command for migrations. Usage and log lines are left out.
pub mod Exits
mod Tests
use gframework.Base.{
  ℕ, String, Option, none, some, List, [], ◌∷◌, ℤ, pos, ◌-ℤ◌, wrap_64, str_eq, if◌then◌else◌,
}
use gframework.Errors.{GoError, Result, ok, err}
use gframework.Postgres.Migration.{
  Env, Logged, MigrationVersion, migrate_up, migrate_steps, get_migration_version,
  force_migration_version,
}
use gframework.Demo.Config.{Config, postgres_dsn}

-- The exit code of the program: log.Fatal exits with 1.
abbrev exit_of : Option GoError → ℕ
exit_of none = 0
exit_of (some e) = 1

abbrev exit_with : {A : Type 0} → Result A → ℕ
exit_with (ok a) = 0
exit_with (err e) = 1

-- `atoi` is strconv.Atoi.
module _ {W : Type 0} (env : Env W) (atoi : String → Result ℤ) where
  handle_version : String → String → Logged W → ℕ × Logged W
  handle_version dsn source s =
      let (r, s') = get_migration_version env dsn source s in (exit_with r, s')

  handle_up : String → String → Logged W → ℕ × Logged W
  handle_up dsn source s = let (e, s') = migrate_up env dsn source s in (exit_of e, s')

  step_down : String → String → Result ℤ → Logged W → ℕ × Logged W
  step_down dsn source (err e) s = (1, s)
  step_down dsn source (ok n) s =
      let (e, s') = migrate_steps env dsn source (wrap_64 (pos 0 -ℤ n)) s in (exit_of e, s')

  handle_down : List String → String → String → Logged W → ℕ × Logged W
  handle_down [] dsn source s = (1, s)
  handle_down (count ∷ rest) dsn source s = step_down dsn source (atoi count) s

  force_to : String → String → Result ℤ → Logged W → ℕ × Logged W
  force_to dsn source (err e) s = (1, s)
  force_to dsn source (ok version) s =
      let (e, s') = force_migration_version env dsn source version s in (exit_of e, s')

  handle_force : List String → String → String → Logged W → ℕ × Logged W
  handle_force [] dsn source s = (1, s)
  handle_force (version ∷ rest) dsn source s = force_to dsn source (atoi version) s

  run : String → List String → String → String → Logged W → ℕ × Logged W
  run command rest dsn source s =
      if str_eq command "version"
      then handle_version dsn source s
      else if str_eq command "up"
      then handle_up dsn source s
      else if str_eq command "down"
      then handle_down rest dsn source s
      else if str_eq command "force"
      then handle_force rest dsn source s
      else (1, s)

  module _ (digits : ℤ → String) where
    run_command : String → List String → Config → Logged W → ℕ × Logged W
    run_command command rest cfg s =
        run command rest (postgres_dsn digits cfg) cfg.migration_source s

    after_config : String → List String → Result Config → Logged W → ℕ × Logged W
    after_config command rest (err e) s = (1, s)
    after_config command rest (ok cfg) s = run_command command rest cfg s

    -- `config` is what config.New gives.
    pub main : (config : Result Config) (args : List String) → Logged W → ℕ × Logged W
    main config [] s = (1, s)
    main config (command ∷ rest) s = after_config command rest config s
