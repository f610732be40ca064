-- ===== src/Runner/Tests.antt =====
-- Runs of runner/runner.go, and a concrete use of what is proved of it.
use gframework.Base.{
  String, ◌≡◌, refl, true, Option, none, some, List, [], ◌∷◌, str_eq, if◌then◌else◌, pos,
}
use gframework.Errors.{GoError, sentinel}
use gframework.Runner.{
  Runner, Env, starting, stopping, awaited, graceful, exit_code, new, with_core_service,
  with_infrastructure_service, with_shutdown_timeout, run, start_services, shutdown_with_timeout,
  shutdown_all, after_core, after_infrastructure,
}

-- The service that fails at once, if any.
abbrev World : Type 0
World = Option String

abbrev fails_first : List String → World → Option GoError
fails_first [] w = none
fails_first (s ∷ ss) none = none
fails_first (s ∷ ss) (some bad) = if str_eq s bad then some (sentinel "ErrServiceFailed") else none

abbrev env : Env World
env = record {
  early = λ ss w. (fails_first ss w, w);
  all_stopped = λ timeout ss w. (true, w);
  signal = λ w. w;
}

abbrev app : Runner
app = record {
  core_services = "http" ∷ [];
  infrastructure_services = "postgres" ∷ "valkey" ∷ [];
  shutdown_timeout = pos 5_000_000_000;
}

runs :
    (new (
        with_core_service "http"
        ∷ with_infrastructure_service "postgres"
        ∷ with_infrastructure_service "valkey"
        ∷ with_shutdown_timeout (pos 5_000_000_000)
        ∷ [])
      ≡ app)
    × ((run env app (some "http")).trace
        ≡ starting ("postgres" ∷ "valkey" ∷ [])
          ∷ starting ("http" ∷ [])
          ∷ stopping ("http" ∷ [])
          ∷ awaited true
          ∷ stopping ("postgres" ∷ "valkey" ∷ [])
          ∷ awaited true
          ∷ [])
    × ((run env app (some "http")).exit ≡ exit_code 1)
    × ((run env app (some "postgres")).trace
        ≡ starting ("postgres" ∷ "valkey" ∷ [])
          ∷ stopping ("postgres" ∷ "valkey" ∷ [])
          ∷ awaited true
          ∷ [])
    × ((run env app none).exit ≡ graceful)
unfolding new with_core_service with_infrastructure_service with_shutdown_timeout run start_services
    shutdown_with_timeout shutdown_all after_core after_infrastructure
runs = (refl, refl, refl, refl, refl)
