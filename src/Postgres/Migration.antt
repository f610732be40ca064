-- ===== src/Postgres/Migration.antt =====
-- postgres/migration.go: migrations of a database, each on a connection and a migrator of its own.
pub mod Protocol
pub mod Success
mod Tests
use gframework.Base.{
  ℕ, String, ◌≡◌, Bool, true, false, Option, none, some, List, [], ◌∷◌, if◌then◌else◌, ℤ, pos,
}
use gframework.Errors.{GoError, sentinel, wrap, is, Result, ok, err}

pub record MigrationVersion : Type 0 where
  pub version : ℕ
  pub dirty : Bool

pub data Action : Type 0 where
  up down : Action
  steps : ℤ → Action
  force : ℤ → Action

-- What is opened, used and closed, with the errors.
pub data Event : Type 0 where
  opened : Event
  db_closed : Option GoError → Event
  driver_made : Event
  migrator_made : Event
  migrator_failed : Event
  acted : Action → Option GoError → Event
  asked_version : Event
  migrator_closed : Option GoError → Option GoError → Event

-- database/sql and golang-migrate act on a state `W`. Closing a migrator has an error for the source and
-- one for the database; `version` may have an error as well.
pub record Env (W : Type 0) : Type 0 where
  pub open_db : String → W → Option GoError × W
  pub ping : ℤ → W → Option GoError × W
  pub close_db : W → Option GoError × W
  pub with_instance : W → Option GoError × W
  pub new_migrator : String → W → Option GoError × W
  pub act : Action → W → Option GoError × W
  pub ask_version : W → (MigrationVersion × Option GoError) × W
  pub close_both : W → (Option GoError × Option GoError) × W

-- The newest event first.
pub record Logged (W : Type 0) : Type 0 where
  pub world : W
  pub log : List Event

abbrev pub note : {W : Type 0} → Event → W → Logged W → Logged W
note e w s = record { world = w; log = e ∷ s.log }

abbrev operation : Action → String
operation up = "up"
operation down = "down"
operation (steps n) = "steps"
operation (force v) = "force"

module _ {W : Type 0} (env : Env W) where
  -- The deferred `db.Close()`; its error is only logged.
  close_database : Logged W → Logged W
  close_database s = let (e, w) = env.close_db s.world in note (db_closed e) w s

  after_ping : Option GoError → Logged W → Option GoError × Logged W
  after_ping none s = (none, s)
  after_ping (some e) s = (some (wrap "failed to ping database" e), close_database s)

  after_open : Option GoError × W → Logged W → Option GoError × Logged W
  after_open (some e, w) s =
      (some (wrap "failed to open database connection" e), record s { world = w })
  after_open (none, w) s =
      let (e, w') = env.ping (pos 10_000_000_000) w in after_ping e (note opened w' s)

  open_and_ping_db : String → Logged W → Option GoError × Logged W
  open_and_ping_db uri s = after_open (env.open_db uri s.world) s

  -- The driver holds a connection of its own, which only the migrator's `Close` gives up.
  after_new : Option GoError × W → Logged W → Option GoError × Logged W
  after_new (some e, w) s =
      (some (wrap "failed to create migrator instance" e), note migrator_failed w s)
  after_new (none, w) s = (none, note migrator_made w s)

  after_instance : String → Option GoError × W → Logged W → Option GoError × Logged W
  after_instance source (some e, w) s =
      (some (wrap "failed to create migration driver instance" e), record s { world = w })
  after_instance source (none, w) s =
      let t = note driver_made w s in after_new (env.new_migrator source w) t

  create_migrator : String → Logged W → Option GoError × Logged W
  create_migrator source s = after_instance source (env.with_instance s.world) s

  cleanup_error : Option GoError × Option GoError → Option GoError
  cleanup_error (some e, d) = some (wrap "migration cleanup error (source)" e)
  cleanup_error (none, some e) = some (wrap "migration cleanup error (database)" e)
  cleanup_error (none, none) = none

  close_migrator : Logged W → Option GoError × Logged W
  close_migrator s =
      let (es, w) = env.close_both s.world in
      (cleanup_error es, note (migrator_closed es.0 es.1) w s)

  -- A success asks for the version, to log it.
  log_migration_result : Action → Option GoError → Logged W → Option GoError × Logged W
  log_migration_result a none s =
      let (v, w) = env.ask_version s.world in (none, note asked_version w s)
  log_migration_result a (some e) s =
      if is e "migrate.ErrNoChange"
      then (none, s)
      else (some (wrap "failed to run migration" (wrap (operation a) e)), s)

  after_result : Option GoError × Logged W → Option GoError × Logged W
  after_result (some e, s) = (some e, (close_migrator s).1)
  after_result (none, s) = close_migrator s

  perform : Action → Logged W → Option GoError × Logged W
  perform a s =
      let (e, w) = env.act a s.world in
      after_result (log_migration_result a e (note (acted a e) w s))

  -- `ForceMigrationVersion` does not ask for the version, and keeps ErrNoChange an error.
  after_force : Option GoError → Logged W → Option GoError × Logged W
  after_force none s = close_migrator s
  after_force (some e) s = (some (wrap "failed to force migration version" e), (close_migrator s).1)

  perform_force : ℤ → Logged W → Option GoError × Logged W
  perform_force v s =
      let (e, w) = env.act (force v) s.world in after_force e (note (acted (force v) e) w s)

  version_result : MigrationVersion × Option GoError → Result MigrationVersion
  version_result (v, none) = ok v
  version_result (v, some e) =
      if is e "migrate.ErrNilVersion" then ok v else err (wrap "failed to get migration version" e)

  perform_version : Logged W → Result MigrationVersion × Logged W
  perform_version s =
      let (v, w) = env.ask_version s.world in
      (version_result v, (close_migrator (note asked_version w s)).1)

  -- What all functions of the file share: a database that is closed at the end, and a migrator on it.
  -- `failed` makes an error a result.
  module _ {R : Type 0} (failed : GoError → R) where
    on_migrator : (Logged W → R × Logged W) → Option GoError × Logged W → R × Logged W
    on_migrator body (some e, s) = (failed e, s)
    on_migrator body (none, s) = body s

    closing : R × Logged W → R × Logged W
    closing (r, s) = (r, close_database s)

    on_database : String → (Logged W → R × Logged W) → Option GoError × Logged W → R × Logged W
    on_database source body (some e, s) = (failed e, s)
    on_database source body (none, s) = closing (on_migrator body (create_migrator source s))

    pub with_migrator : String → String → (Logged W → R × Logged W) → Logged W → R × Logged W
    with_migrator uri source body s = on_database source body (open_and_ping_db uri s)

  pub migrate_up : String → String → Logged W → Option GoError × Logged W
  migrate_up uri source = with_migrator some uri source (perform up)

  pub migrate_down : String → String → Logged W → Option GoError × Logged W
  migrate_down uri source = with_migrator some uri source (perform down)

  pub migrate_steps : String → String → ℤ → Logged W → Option GoError × Logged W
  migrate_steps uri source n = with_migrator some uri source (perform (steps n))

  pub get_migration_version : String → String → Logged W → Result MigrationVersion × Logged W
  get_migration_version uri source = with_migrator err uri source perform_version

  pub force_migration_version : String → String → ℤ → Logged W → Option GoError × Logged W
  force_migration_version uri source v = with_migrator some uri source (perform_force v)

  -- The version before and after is only logged.
  after_up : String → String → Option GoError × Logged W → Option GoError × Logged W
  after_up uri source (some e, s) = (some e, s)
  after_up uri source (none, s) = (none, (get_migration_version uri source s).1)

  pub run_migration : String → String → Logged W → Option GoError × Logged W
  run_migration uri source s =
      after_up uri source (migrate_up uri source (get_migration_version uri source s).1)
