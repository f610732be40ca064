-- ===== src/Demo/Migrate/Exits.antt =====
-- examples/demo-api/cmd/migrate/main.go: the end of the program.
use gframework.Base.{String, inl, inr, Bool-cases, List, [], ◌∷◌, ℤ, pos, ◌-ℤ◌, wrap_64, str_eq}
use gframework.Errors.{Result, ok, err}
use gframework.Postgres.Migration.{Env, Logged}
use gframework.Postgres.Migration.Protocol.{At, idle, migrations-idle}
use gframework.Demo.Config.{Config, postgres_dsn}
use gframework.Demo.Migrate.{
  handle_version, handle_up, step_down, handle_down, force_to, handle_force, run, run_command,
  after_config, main,
}

module _ {W : Type 0} (env : Env W) (atoi : String → Result ℤ) where
  step_down-idle :
      (uri source : String) (n : Result ℤ) (s : Logged W)
      → At idle s.log
      → At idle (step_down env atoi uri source n s).1.log
  unfolding step_down
  step_down-idle uri source (err e) s h = h
  step_down-idle uri source (ok n) s h =
      (migrations-idle env uri source (wrap_64 (pos 0 -ℤ n)) s h).2

  force_to-idle :
      (uri source : String) (n : Result ℤ) (s : Logged W)
      → At idle s.log
      → At idle (force_to env atoi uri source n s).1.log
  unfolding force_to
  force_to-idle uri source (err e) s h = h
  force_to-idle uri source (ok n) s h = (migrations-idle env uri source n s h).4

  handle_down-idle :
      (rest : List String) (uri source : String) (s : Logged W)
      → At idle s.log
      → At idle (handle_down env atoi rest uri source s).1.log
  unfolding handle_down
  handle_down-idle [] uri source s h = h
  handle_down-idle (a ∷ rest) uri source s h = step_down-idle uri source (atoi a) s h

  handle_force-idle :
      (rest : List String) (uri source : String) (s : Logged W)
      → At idle s.log
      → At idle (handle_force env atoi rest uri source s).1.log
  unfolding handle_force
  handle_force-idle [] uri source s h = h
  handle_force-idle (a ∷ rest) uri source s h = force_to-idle uri source (atoi a) s h

  run-idle :
      (command : String) (rest : List String) (uri source : String) (s : Logged W)
      → At idle s.log
      → At idle (run env atoi command rest uri source s).1.log
  unfolding run handle_version handle_up
  run-idle command rest uri source s h = elim (Bool-cases (str_eq command "version")) [
    | inl e ↦ rw e ((migrations-idle env uri source (pos 0) s h).3)
    | inr n ↦ rw n (elim (Bool-cases (str_eq command "up")) [
      | inl e ↦ rw e ((migrations-idle env uri source (pos 0) s h).0)
      | inr n ↦ rw n (elim (Bool-cases (str_eq command "down")) [
        | inl e ↦ rw e (handle_down-idle rest uri source s h)
        | inr n ↦ rw n (elim (Bool-cases (str_eq command "force")) [
          | inl e ↦ rw e (handle_force-idle rest uri source s h)
          | inr n ↦ rw n h
        ])
      ])
    ])
  ]

  -- However the command ends, with whatever arguments and with whatever error on the way, every database
  -- and every migrator that it opened is closed again at its end, in the right order; only the driver of
  -- a migrator that could not be made is left open.
  pub main-idle :
      (digits : ℤ → String) (config : Result Config) (args : List String) (s : Logged W)
      → At idle s.log
      → At idle (main env atoi digits config args s).1.log
  unfolding main after_config run_command
  main-idle digits config [] s h = h
  main-idle digits (err e) (command ∷ rest) s h = h
  main-idle digits (ok cfg) (command ∷ rest) s h =
      run-idle command rest (postgres_dsn digits cfg) cfg.migration_source s h
