-- ===== src/Postgres/Retry/Tests.antt =====
-- Runs of postgres/retry.go.
use gframework.Base.{◌+◌, ◌≤◌, ◌≡◌, refl, none, some, List, [], ◌∷◌, ℤ, pos, arith}
use gframework.Errors.{GoError, pg_error, wrap, Outcome, returned}
use gframework.Postgres.Retry.{RetryConfig, default_retry_config, with_retry}
use gframework.Postgres.Retry.Trace.{calls, delays, Resumes}
use gframework.Postgres.Retry.Attempts.{allowed_calls, with_retry-calls, with_retry-Resumes}
use gframework.Postgres.Retry.Script.{scripted, patient, with_retry_succeeds, with_retry_exceeds}

abbrev deadlock : GoError
deadlock = pg_error "40P01"

abbrev flaky : List Outcome
flaky = returned (some deadlock) ∷ returned (some deadlock) ∷ returned none ∷ []

flaky_run-delays :
    delays (with_retry default_retry_config scripted patient flaky).trace
    ≡ pos 100_000_000 ∷ pos 200_000_000 ∷ []
unfolding with_retry default_retry_config
flaky_run-delays = refl

-- A negative `MaxRetries` makes no call, and the result is an error all the same.
no_rounds :
    let cfg = record default_retry_config { max_retries = ℤ.negsuc 0 } in
    let r = with_retry cfg scripted patient flaky in
    (r.result ≡ returned (some (GoError.foreign "retry failed"))) × (r.trace ≡ [])
unfolding with_retry
no_rounds = (refl, refl)

with_retry-calls_example :
    calls (with_retry default_retry_config scripted patient flaky).trace
    ≤ allowed_calls default_retry_config.max_retries
with_retry-calls_example = with_retry-calls default_retry_config scripted patient flaky

with_retry-Resumes_example :
    Resumes default_retry_config (with_retry default_retry_config scripted patient flaky).trace
with_retry-Resumes_example = with_retry-Resumes default_retry_config scripted patient flaky

with_retry_succeeds_example :
    let r = with_retry default_retry_config scripted patient flaky in
    (r.result ≡ returned none) × (calls r.trace ≡ 2 + 1) × (r.world ≡ [])
unfolding default_retry_config with_retry
with_retry_succeeds_example =
    with_retry_succeeds default_retry_config 3 (deadlock ∷ deadlock ∷ []) [] refl (refl, (refl, tt))
      (omega arith)

abbrev once : RetryConfig
once = record {
  max_retries = pos 0;
  initial_delay = pos 5;
  max_delay = pos 5;
  scale = λ d. d;
  retryable_errs = "40P01" ∷ [];
}

with_retry_exceeds_example :
    let r = with_retry once scripted patient (returned (some deadlock) ∷ flaky) in
    (r.result ≡ returned (some (wrap "max retries exceeded" deadlock)))
    × (calls r.trace ≡ 0 + 1)
    × (r.world ≡ flaky)
unfolding with_retry
with_retry_exceeds_example = with_retry_exceeds once 0 [] deadlock flaky refl (refl, tt) refl
