-- ===== src/Runner/Order.antt =====
-- runner/runner.go: which services are started and stopped, and in what order.
use gframework.Base.{String, ◌≡◌, List, [], ◌∷◌, ◌++◌}
use gframework.Runner.{Runner, Env, Event, starting, stopping, awaited, signalled, exit_code, Run}

-- The services that were started, and those that were stopped, in the order of the trace.
abbrev pub started : List Event → List String
started [] = []
started (starting ss ∷ es) = ss ++ started es
started (stopping ss ∷ es) = started es
started (awaited b ∷ es) = started es
started (signalled ∷ es) = started es

abbrev pub stopped : List Event → List String
stopped [] = []
stopped (starting ss ∷ es) = stopped es
stopped (stopping ss ∷ es) = ss ++ stopped es
stopped (awaited b ∷ es) = stopped es
stopped (signalled ∷ es) = stopped es

-- The services that were started after some service was stopped.
abbrev pub late : List Event → List String
late [] = []
late (starting ss ∷ es) = late es
late (stopping ss ∷ es) = started es
late (awaited b ∷ es) = late es
late (signalled ∷ es) = late es

-- Only starts of these services.
record Starts (ss : List String) (es : List Event) : Type 0 where
  all_started : started es ≡ ss
  none_stopped : stopped es ≡ []
  no_stop : (fs : List Event) → late (es ++ fs) ≡ late fs

-- Only stops of these services.
record Stops (ss : List String) (es : List Event) : Type 0 where
  none_started : started es ≡ []
  all_stopped : stopped es ≡ ss

-- A run that started `ups` and then stopped `downs`.
abbrev pub Ordered : List String → List String → List Event → Type 0
Ordered ups downs t = (started t ≡ ups) × (stopped t ≡ downs) × (late t ≡ [])

module _ {W : Type 0} (env : Env W) (r : Runner) where
  -- What a run starts and stops, and how it ends.
  abbrev pub FullRun : Run W → Type 0
  FullRun done =
      Ordered (r.infrastructure_services ++ r.core_services)
        (r.core_services ++ r.infrastructure_services) done.trace

  abbrev pub EarlyEnd : Run W → Type 0
  EarlyEnd done =
      Ordered r.infrastructure_services r.infrastructure_services done.trace
      × (done.exit ≡ exit_code 1)
