-- ===== src/Postgres/Migration/Protocol.antt =====
-- postgres/migration.go: the order in which connections and migrators are opened, used and closed.
use gframework.Base.{
  ℕ, suc, ◌+◌, arith, String, ◌≡◌, Bool-cases, inl, inr, Option, none, some, List, [], ◌∷◌, ℤ,
}
use gframework.Errors.{GoError, is, err}
use gframework.Postgres.Migration.{
  Action, up, down, steps, force, Event, opened, db_closed, driver_made, migrator_made,
  migrator_failed, acted, asked_version, migrator_closed, Env, Logged, close_database, after_ping,
  after_open, open_and_ping_db, after_new, after_instance, create_migrator, close_migrator,
  log_migration_result, after_result, perform, after_force, perform_force, perform_version,
  on_migrator, closing, on_database, with_migrator, migrate_up, migrate_down, migrate_steps,
  get_migration_version, force_migration_version, after_up, run_migration,
}

-- Nothing is open; the database is; a driver without a migrator is open on it; a migrator is; a step was
-- taken out of turn.
pub data Phase : Type 0 where
  idle connected driven migrating broken : Phase

abbrev advance : Event → Phase → Phase
advance opened idle = connected
advance (db_closed e) connected = idle
advance driver_made connected = driven
advance migrator_made driven = migrating
advance migrator_failed driven = connected
advance (acted a e) migrating = migrating
advance asked_version migrating = migrating
advance (migrator_closed s d) migrating = connected
advance e p = broken

-- The phase after a log.
abbrev pub phase : List Event → Phase
phase [] = idle
phase (e ∷ es) = advance e (phase es)

-- The drivers that were made, the migrators that were closed, with their drivers, and the migrators that
-- could not be made.
abbrev pub drivers : List Event → ℕ
drivers [] = 0
drivers (driver_made ∷ es) = suc (drivers es)
drivers (_ ∷ es) = drivers es

abbrev pub closings : List Event → ℕ
closings [] = 0
closings (migrator_closed s d ∷ es) = suc (closings es)
closings (_ ∷ es) = closings es

abbrev pub failures : List Event → ℕ
failures [] = 0
failures (migrator_failed ∷ es) = suc (failures es)
failures (_ ∷ es) = failures es

-- The driver in use.
abbrev pub in_use : Phase → ℕ
in_use idle = 0
in_use connected = 0
in_use driven = 1
in_use migrating = 1
in_use broken = 0

-- The phase is `p`, and each driver that was made is in use, was closed with its migrator, or was left
-- open because its migrator could not be made.
abbrev pub At : Phase → List Event → Type 0
At p log = (phase log ≡ p) × (drivers log ≡ closings log + failures log + in_use p)

-- Without an error the phase is the first, else the second.
abbrev Ends : {W : Type 0} → Phase → Phase → Option GoError × Logged W → Type 0
Ends p q (none, s) = At p s.log
Ends p q (some e, s) = At q s.log

module _ {W : Type 0} (env : Env W) where
  close_database-idle : (s : Logged W) → At connected s.log → At idle (close_database env s).log
  unfolding close_database
  close_database-idle s h = ground arith

  after_ping-Ends :
      (e : Option GoError) (s : Logged W)
      → At connected s.log
      → Ends connected idle (after_ping env e s)
  unfolding after_ping
  after_ping-Ends none s h = h
  after_ping-Ends (some e) s h = close_database-idle s h

  after_open-Ends :
      (r : Option GoError × W) (s : Logged W)
      → At idle s.log
      → Ends connected idle (after_open env r s)
  unfolding after_open
  after_open-Ends (some e, w) s h = h
  after_open-Ends (none, w) s h = after_ping-Ends _ _ (ground arith)

  after_new-Ends :
      (r : Option GoError × W) (s : Logged W)
      → At driven s.log
      → Ends migrating connected (after_new env r s)
  unfolding after_new
  after_new-Ends (some e, w) s h = ground arith
  after_new-Ends (none, w) s h = ground arith

  create_migrator-Ends :
      (source : String) (s : Logged W)
      → At connected s.log
      → Ends migrating connected (create_migrator env source s)
  unfolding create_migrator
  create_migrator-Ends source s h = after_instance-Ends (env.with_instance s.world)
    where
      after_instance-Ends :
          (r : Option GoError × W) → Ends migrating connected (after_instance env source r s)
      after_instance-Ends (some e, w) = unfold after_instance in h
      after_instance-Ends (none, w) = unfold after_instance in after_new-Ends _ _ (ground arith)

  close_migrator-connected :
      (s : Logged W) → At migrating s.log → At connected (close_migrator env s).1.log
  unfolding close_migrator
  close_migrator-connected s h = ground arith

  after_result-connected :
      (r : Option GoError × Logged W)
      → At migrating r.1.log
      → At connected (after_result env r).1.log
  unfolding after_result
  after_result-connected (some e, s) h = close_migrator-connected s h
  after_result-connected (none, s) h = close_migrator-connected s h

  log_migration_result-migrating :
      (a : Action) (e : Option GoError) (s : Logged W)
      → At migrating s.log
      → At migrating (log_migration_result env a e s).1.log
  unfolding log_migration_result
  log_migration_result-migrating a none s h = ground arith
  log_migration_result-migrating a (some e) s h = elim (Bool-cases (is e "migrate.ErrNoChange")) [
    | inl same ↦ rw same h
    | inr other ↦ rw other h
  ]

  perform-connected :
      (a : Action) (s : Logged W) → At migrating s.log → At connected (perform env a s).1.log
  unfolding perform
  perform-connected a s h =
      after_result-connected _ (log_migration_result-migrating a _ _ (ground arith))

  perform_force-connected :
      (v : ℤ) (s : Logged W) → At migrating s.log → At connected (perform_force env v s).1.log
  unfolding perform_force
  perform_force-connected v s h =
      after_force-connected (env.act (force v) s.world).0 _ (ground arith)
    where
      after_force-connected :
          (e : Option GoError) (t : Logged W)
          → At migrating t.log
          → At connected (after_force env e t).1.log
      after_force-connected none t k = unfold after_force in close_migrator-connected t k
      after_force-connected (some e) t k = unfold after_force in close_migrator-connected t k

  perform_version-connected :
      (s : Logged W) → At migrating s.log → At connected (perform_version env s).1.log
  unfolding perform_version
  perform_version-connected s h = close_migrator-connected _ (ground arith)

  module _ {R : Type 0} (failed : GoError → R) (body : Logged W → R × Logged W)
      (keeps : (s : Logged W) → At migrating s.log → At connected (body s).1.log) where
    on_migrator-connected :
        (r : Option GoError × Logged W)
        → Ends migrating connected r
        → At connected (on_migrator env failed body r).1.log
    unfolding on_migrator
    on_migrator-connected (some e, s) h = h
    on_migrator-connected (none, s) h = keeps s h

    on_database-idle :
        (source : String) (r : Option GoError × Logged W)
        → Ends connected idle r
        → At idle (on_database env failed source body r).1.log
    unfolding on_database closing
    on_database-idle source (some e, s) h = h
    on_database-idle source (none, s) h =
        close_database-idle _ (on_migrator-connected _ (create_migrator-Ends source s h))

    with_migrator-idle :
        (uri source : String) (s : Logged W)
        → At idle s.log
        → At idle (with_migrator env failed uri source body s).1.log
    unfolding with_migrator open_and_ping_db
    with_migrator-idle uri source s h = on_database-idle source _ (after_open-Ends _ s h)

  migrate_up-idle :
      (uri source : String) (s : Logged W)
      → At idle s.log
      → At idle (migrate_up env uri source s).1.log
  unfolding migrate_up
  migrate_up-idle uri source = with_migrator-idle some _ (perform-connected up) uri source

  get_migration_version-idle :
      (uri source : String) (s : Logged W)
      → At idle s.log
      → At idle (get_migration_version env uri source s).1.log
  unfolding get_migration_version
  get_migration_version-idle uri source =
      with_migrator-idle err _ perform_version-connected uri source

  after_up-idle :
      (uri source : String) (r : Option GoError × Logged W)
      → At idle r.1.log
      → At idle (after_up env uri source r).1.log
  unfolding after_up
  after_up-idle uri source (some e, s) h = h
  after_up-idle uri source (none, s) h = get_migration_version-idle uri source s h

  -- Every function of the file that starts with nothing open ends with nothing open, whatever fails on
  -- the way, but for the driver of each migrator that could not be made, which is never closed; and on
  -- the way it keeps the order of `phase`: the driver is made on an open database and the migrator on the
  -- driver, the migrator is used only until it is closed, and is closed before the database.
  pub migrations-idle :
      (uri source : String) (n : ℤ) (s : Logged W)
      → At idle s.log
      → (At idle (migrate_up env uri source s).1.log)
        × (At idle (migrate_down env uri source s).1.log)
        × (At idle (migrate_steps env uri source n s).1.log)
        × (At idle (get_migration_version env uri source s).1.log)
        × (At idle (force_migration_version env uri source n s).1.log)
        × (At idle (run_migration env uri source s).1.log)
  unfolding migrate_down migrate_steps force_migration_version run_migration
  migrations-idle uri source n s h = (
    migrate_up-idle uri source s h,
    with_migrator-idle some _ (perform-connected down) uri source s h,
    with_migrator-idle some _ (perform-connected (steps n)) uri source s h,
    get_migration_version-idle uri source s h,
    with_migrator-idle some _ (perform_force-connected n) uri source s h,
    after_up-idle uri source _
        (migrate_up-idle uri source _ (get_migration_version-idle uri source s h)),
  )
