-- ===== src/Postgres/Migration/Tests.antt =====
-- Runs of postgres/migration.go, and concrete uses of what is proved of it.
use gframework.Base.{
  String, ◌≡◌, ◌≢◌, ◌⊎◌, refl, Bool, true, false, Option, none, some, [], ◌∷◌, str_eq,
  if◌then◌else◌, pos,
}
use gframework.Errors.{GoError, sentinel, wrap, is}
use gframework.Postgres.Migration.{
  Action, up, down, steps, force, opened, db_closed, driver_made, migrator_made, migrator_failed,
  acted, asked_version, migrator_closed, Env, Logged, close_database, after_ping, after_open,
  open_and_ping_db, after_new, after_instance, create_migrator, cleanup_error, close_migrator,
  log_migration_result, after_result, perform, version_result, perform_version, on_migrator,
  closing, on_database, with_migrator, migrate_up, migrate_down, migrate_steps,
  get_migration_version, force_migration_version, after_up, run_migration,
}
use gframework.Postgres.Migration.Protocol.{At, idle, migrations-idle}
use gframework.Postgres.Migration.Success.{Applied, migrations-Applied}

-- The world is whether all migrations were applied; going down is forbidden, and the database is called
-- "pg".
abbrev go_up : Bool → Option GoError × Bool
go_up true = (some (sentinel "migrate.ErrNoChange"), true)
go_up false = (none, true)

abbrev act_on : Action → Bool → Option GoError × Bool
act_on up all = go_up all
act_on down all = (some (sentinel "forbidden"), all)
act_on (steps n) all = go_up all
act_on (force v) all = (none, all)

abbrev env : Env Bool
env = record {
  open_db = λ uri w. (none, w);
  ping = λ timeout w. (none, w);
  close_db = λ w. (none, w);
  with_instance = λ w. (none, w);
  new_migrator = λ source w.
      (if str_eq source "file://sql" then none else some (sentinel "no such directory"), w);
  act = act_on;
  ask_version = λ w. ((record { version = 3; dirty = false }, none), w);
  close_both = λ w. ((none, none), w);
}

abbrev start : Logged Bool
start = record { world = false; log = [] }

runs :
    ((migrate_up env "pg" "file://sql" start).0 ≡ none)
    × ((migrate_up env "pg" "file://sql" start).1.log
        ≡ db_closed none
          ∷ migrator_closed none none
          ∷ asked_version
          ∷ acted up none
          ∷ migrator_made
          ∷ driver_made
          ∷ opened
          ∷ [])
    × ((run_migration env "pg" "file://sql" (record { world = true; log = [] })).0 ≡ none)
    × ((migrate_down env "pg" "file://sql" start).0
        ≡ some (wrap "failed to run migration" (wrap "down" (sentinel "forbidden"))))
    × ((migrate_up env "pg" "file://typo" start).1.log
        ≡ db_closed none ∷ migrator_failed ∷ driver_made ∷ opened ∷ [])
unfolding migrate_up migrate_down run_migration get_migration_version with_migrator open_and_ping_db
    after_open after_ping create_migrator after_instance after_new on_database on_migrator closing
    close_database perform log_migration_result after_result close_migrator cleanup_error after_up
    perform_version version_result is
runs = (refl, refl, refl, refl, refl)

migrations-idle_example :
    let uri : String = "pg" in
    let source : String = "file://sql" in
    (At idle (migrate_up env uri source start).1.log)
    × (At idle (migrate_down env uri source start).1.log)
    × (At idle (migrate_steps env uri source (pos 2) start).1.log)
    × (At idle (get_migration_version env uri source start).1.log)
    × (At idle (force_migration_version env uri source (pos 2) start).1.log)
    × (At idle (run_migration env uri source start).1.log)
migrations-idle_example = migrations-idle env "pg" "file://sql" (pos 2) start (refl, refl)

migrations-Applied_example :
    let uri : String = "pg" in
    let source : String = "file://sql" in
    (((migrate_up env uri source start).0 ≢ none)
      ⊎ Applied up (migrate_up env uri source start).1.log)
    × (((migrate_down env uri source start).0 ≢ none)
        ⊎ Applied down (migrate_down env uri source start).1.log)
    × (((migrate_steps env uri source (pos 2) start).0 ≢ none)
        ⊎ Applied (steps (pos 2)) (migrate_steps env uri source (pos 2) start).1.log)
    × (((run_migration env uri source start).0 ≢ none)
        ⊎ Applied up (run_migration env uri source start).1.log)
migrations-Applied_example = migrations-Applied env "pg" "file://sql" (pos 2) start
