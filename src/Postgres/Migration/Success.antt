-- ===== src/Postgres/Migration/Success.antt =====
-- postgres/migration.go: what a migration that reports no error has done.
use gframework.Base.{
  String, ◌≡◌, ◌≢◌, ◌⊎◌, refl, true, Bool-cases, inl, inr, Option, none, some, List, [], ◌∷◌, ℤ,
}
use gframework.Errors.{GoError, is, err}
use gframework.Postgres.Migration.{
  Action, up, down, steps, Event, opened, db_closed, driver_made, migrator_made, migrator_failed,
  acted, asked_version, migrator_closed, Env, Logged, note, close_database, after_ping, after_open,
  open_and_ping_db, create_migrator, close_migrator, log_migration_result, after_result, perform,
  on_migrator, closing, on_database, with_migrator, migrate_up, migrate_down, migrate_steps,
  get_migration_version, perform_version, after_up, run_migration, after_new, after_instance,
}

-- The migrator found nothing wrong; having nothing to do is not an error.
abbrev pub Fine : Option GoError → Type 0
Fine none = Unit
Fine (some e) = is e "migrate.ErrNoChange" ≡ true

-- The last action in a log is `a`, and it went well.
abbrev pub Applied : Action → List Event → Type 0
Applied a [] = ⊥
Applied a (acted b e ∷ es) = (b ≡ a) × Fine e
Applied a (opened ∷ es) = Applied a es
Applied a (db_closed e ∷ es) = Applied a es
Applied a (driver_made ∷ es) = Applied a es
Applied a (migrator_made ∷ es) = Applied a es
Applied a (migrator_failed ∷ es) = Applied a es
Applied a (asked_version ∷ es) = Applied a es
Applied a (migrator_closed e d ∷ es) = Applied a es

-- A result without an error comes with this.
abbrev Claims : {W : Type 0} → Action → Option GoError × Logged W → Type 0
Claims a (none, s) = Applied a s.log
Claims a (some e, s) = Unit {0}

module _ {W : Type 0} (env : Env W) (a : Action) where
  close_migrator-Claims : (s : Logged W) → Applied a s.log → Claims a (close_migrator env s)
  unfolding close_migrator
  close_migrator-Claims s h = with_error (close_migrator env s).0 (close_migrator env s).1 h
    where
      with_error : (e : Option GoError) (t : Logged W) → Applied a t.log → Claims a (e, t)
      with_error none t k = k
      with_error (some e) t k = tt

  log_migration_result-Claims :
      (e : Option GoError) (s : Logged W)
      → Claims a (log_migration_result env a e (record s { log = acted a e ∷ s.log }))
  unfolding log_migration_result
  log_migration_result-Claims none s = (refl, tt)
  log_migration_result-Claims (some e) s = elim (Bool-cases (is e "migrate.ErrNoChange")) [
    | inl same ↦ rw same (refl, same)
    | inr other ↦ rw other tt
  ]

  after_result-Claims : (r : Option GoError × Logged W) → Claims a r → Claims a (after_result env r)
  unfolding after_result
  after_result-Claims (none, s) h = close_migrator-Claims s h
  after_result-Claims (some e, s) h = tt

  perform-Claims : (s : Logged W) → Claims a (perform env a s)
  unfolding perform
  perform-Claims s = after_result-Claims _ (
      log_migration_result-Claims (env.act a s.world).0
        (record { world = (env.act a s.world).1; log = s.log }))

  on_migrator-Claims :
      (r : Option GoError × Logged W) → Claims a (on_migrator env some (perform env a) r)
  unfolding on_migrator
  on_migrator-Claims (some e, s) = tt
  on_migrator-Claims (none, s) = perform-Claims s

  closing-Claims : (r : Option GoError × Logged W) → Claims a r → Claims a (closing env some r)
  unfolding closing close_database
  closing-Claims (none, s) h = h
  closing-Claims (some e, s) h = tt

  on_database-Claims :
      (source : String) (r : Option GoError × Logged W)
      → Claims a (on_database env some source (perform env a) r)
  unfolding on_database
  on_database-Claims source (some e, s) = tt
  on_database-Claims source (none, s) = closing-Claims _ (on_migrator-Claims _)

  with_migrator-Claims :
      (uri source : String) (s : Logged W)
      → Claims a (with_migrator env some uri source (perform env a) s)
  unfolding with_migrator
  with_migrator-Claims uri source s = on_database-Claims source _

-- An error, or the action was the last and went well.
pub Claims-sum :
    {W : Type 0} (a : Action) (r : Option GoError × Logged W)
    → Claims a r
    → (r.0 ≢ none) ⊎ Applied a r.1.log
Claims-sum a (none, s) h = inr h
Claims-sum a (some e, s) h = inl (λ p. cc)

-- Asking for the version leaves the last action as it is.
module _ {W : Type 0} (env : Env W) (a : Action) where
  after_ping-Applied :
      (e : Option GoError) (s : Logged W) → Applied a s.log → Applied a (after_ping env e s).1.log
  unfolding after_ping close_database
  after_ping-Applied none s h = h
  after_ping-Applied (some e) s h = h

  after_open-Applied :
      (r : Option GoError × W) (s : Logged W)
      → Applied a s.log
      → Applied a (after_open env r s).1.log
  unfolding after_open
  after_open-Applied (some e, w) s h = h
  after_open-Applied (none, w) s h = after_ping-Applied _ (note opened _ s) h

  after_new-Applied :
      (r : Option GoError × W) (s : Logged W)
      → Applied a s.log
      → Applied a (after_new env r s).1.log
  unfolding after_new
  after_new-Applied (some e, w) s h = h
  after_new-Applied (none, w) s h = h

  after_instance-Applied :
      (source : String) (r : Option GoError × W) (s : Logged W)
      → Applied a s.log
      → Applied a (after_instance env source r s).1.log
  unfolding after_instance
  after_instance-Applied source (some e, w) s h = h
  after_instance-Applied source (none, w) s h = after_new-Applied _ _ h

  on_version-Applied :
      (r : Option GoError × Logged W)
      → Applied a r.1.log
      → Applied a (on_migrator env err (perform_version env) r).1.log
  unfolding on_migrator perform_version close_migrator
  on_version-Applied (some e, s) h = h
  on_version-Applied (none, s) h = h

  on_database-Applied :
      (source : String) (r : Option GoError × Logged W)
      → Applied a r.1.log
      → Applied a (on_database env err source (perform_version env) r).1.log
  unfolding on_database closing close_database create_migrator
  on_database-Applied source (some e, s) h = h
  on_database-Applied source (none, s) h =
      on_version-Applied _ (after_instance-Applied source _ s h)

module _ {W : Type 0} (env : Env W) (uri source : String) where
  version_keeps :
      (a : Action) (s : Logged W)
      → Applied a s.log
      → Applied a (get_migration_version env uri source s).1.log
  unfolding get_migration_version with_migrator open_and_ping_db
  version_keeps a s h = on_database-Applied env a source _ (after_open-Applied env a _ s h)

  after_up-Claims :
      (r : Option GoError × Logged W) → Claims up r → Claims up (after_up env uri source r)
  unfolding after_up
  after_up-Claims (none, s) h = version_keeps up s h
  after_up-Claims (some e, s) h = tt

  -- A migration reports an error, or the last thing that was done to the schema is what it stands for,
  -- and golang-migrate reported success or that there was nothing to change.
  pub migrations-Applied :
      (n : ℤ) (s : Logged W)
      → (((migrate_up env uri source s).0 ≢ none) ⊎ Applied up (migrate_up env uri source s).1.log)
        × (((migrate_down env uri source s).0 ≢ none)
            ⊎ Applied down (migrate_down env uri source s).1.log)
        × (((migrate_steps env uri source n s).0 ≢ none)
            ⊎ Applied (steps n) (migrate_steps env uri source n s).1.log)
        × (((run_migration env uri source s).0 ≢ none)
            ⊎ Applied up (run_migration env uri source s).1.log)
  unfolding migrate_up migrate_down migrate_steps run_migration
  migrations-Applied n s = (
    Claims-sum up _ (with_migrator-Claims env up uri source s),
    Claims-sum down _ (with_migrator-Claims env down uri source s),
    Claims-sum (steps n) _ (with_migrator-Claims env (steps n) uri source s),
    Claims-sum up _ (after_up-Claims _ (with_migrator-Claims env up uri source _)),
  )
