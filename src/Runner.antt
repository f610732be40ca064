-- ===== src/Runner.antt =====
-- runner/runner.go: the life of an application's services.
pub mod Order
mod Tests
use gframework.Base.{
  ℕ, String, ◌≡◌, Bool, true, false, Option, none, some, List, [], ◌∷◌, ◌++◌, ℤ, pos,
}
use gframework.Errors.{GoError}

-- Services by their names.
pub record Runner : Type 0 where
  pub core_services : List String
  pub infrastructure_services : List String
  pub shutdown_timeout : ℤ

abbrev pub RunnerOption : Type 0
RunnerOption = Runner → Runner

unfoldable pub with_core_service : String → RunnerOption
with_core_service svc r = record r { core_services = r.core_services ++ svc ∷ [] }

unfoldable pub with_infrastructure_service : String → RunnerOption
with_infrastructure_service svc r = record r {
  infrastructure_services = r.infrastructure_services ++ svc ∷ [];
}

pub with_shutdown_timeout : ℤ → RunnerOption
with_shutdown_timeout d r = record r { shutdown_timeout = d }

abbrev pub apply_options : List RunnerOption → Runner → Runner
apply_options [] r = r
apply_options (o ∷ os) r = apply_options os (o r)

-- The default timeout is a constant of the package.
unfoldable pub new : List RunnerOption → Runner
new opts = apply_options opts (record {
  core_services = [];
  infrastructure_services = [];
  shutdown_timeout = pos 30_000_000_000;
})

-- A goroutine was launched for each of the services, to start or to stop it; all stops have returned,
-- or the timeout came first; the signal came.
pub data Event : Type 0 where
  starting : List String → Event
  stopping : List String → Event
  awaited : Bool → Event
  signalled : Event

pub data Exit : Type 0 where
  graceful : Exit
  exit_code : ℕ → Exit

-- `early` is what the `select` after the launches finds: an error (of a service that failed or
-- panicked, or the context's), or nothing yet.
pub record Env (W : Type 0) : Type 0 where
  pub early : List String → W → Option GoError × W
  pub all_stopped : ℤ → List String → W → Bool × W
  pub signal : W → W

-- The events, the oldest first.
pub record Run (W : Type 0) : Type 0 where
  pub exit : Exit
  pub trace : List Event
  pub world : W

module _ {W : Type 0} (env : Env W) (r : Runner) where
  start_services : List String → W → Option GoError × List Event × W
  start_services [] w = (none, [], w)
  start_services (s ∷ ss) w = let (e, w') = env.early (s ∷ ss) w in (e, starting (s ∷ ss) ∷ [], w')

  shutdown_with_timeout : List String → W → List Event × W
  shutdown_with_timeout [] w = ([], w)
  shutdown_with_timeout (s ∷ ss) w =
      let (all, w') = env.all_stopped r.shutdown_timeout (s ∷ ss) w in
      (stopping (s ∷ ss) ∷ awaited all ∷ [], w')

  -- The core services, then the infrastructure services.
  shutdown_all : Exit → List Event → W → Run W
  shutdown_all exit before w =
      let (core, w1) = shutdown_with_timeout r.core_services w in
      let (infra, w2) = shutdown_with_timeout r.infrastructure_services w1 in
      record { exit = exit; trace = before ++ (core ++ infra); world = w2 }

  after_core : List Event → Option GoError × List Event × W → Run W
  after_core before (some e, events, w) = shutdown_all (exit_code 1) (before ++ events) w
  after_core before (none, events, w) =
      shutdown_all graceful (before ++ (events ++ signalled ∷ [])) (env.signal w)

  after_infrastructure : Option GoError × List Event × W → Run W
  after_infrastructure (some e, events, w) =
      let (infra, w') = shutdown_with_timeout r.infrastructure_services w in
      record { exit = exit_code 1; trace = events ++ infra; world = w' }
  after_infrastructure (none, events, w) = after_core events (start_services r.core_services w)

  pub run : W → Run W
  run w = after_infrastructure (start_services r.infrastructure_services w)
