-- ===== src/Postgres/Retry/Attempts.antt =====
-- postgres/retry.go: what `WithRetry` does, over every operation and every schedule of waits.
use gframework.Base.{
  ℕ, ◌-◌, ◌+◌, ◌≤◌, refl, sym, arith, pos, negsuc, ◌≡◌, ◌↔◌, Option, none, some, ℤ,
}
use gframework.Errors.{GoError, Outcome, returned}
use gframework.Postgres.Retry.{RetryConfig, called, rounds, with_retry}
use gframework.Postgres.Retry.Loop.{
  loop-Runs, Runs-calls, Runs-delays_first, Runs-Resumes, Runs-nil,
}
use gframework.Postgres.Retry.Trace.{calls, delays, last_or, Resumes, schedule}

-- The calls that a number of retries allows: that many after the first, none for a negative number.
abbrev pub allowed_calls : ℤ → ℕ
allowed_calls (pos retries) = retries + 1
allowed_calls (negsuc n) = 0

rounds-allowed_calls : (z : ℤ) → rounds z ≡ allowed_calls z
rounds-allowed_calls (pos retries) = omega arith
rounds-allowed_calls (negsuc n) = refl

module _ {W : Type 0} (cfg : RetryConfig) (fn : W → Outcome × W) (wait : ℤ → W → Option GoError × W)
    (w : W) where
  -- `WithRetry` calls the operation at most `MaxRetries + 1` times, and never if `MaxRetries` is
  -- negative.
  pub with_retry-calls : calls (with_retry cfg fn wait w).trace ≤ allowed_calls cfg.max_retries
  unfolding with_retry
  with_retry-calls =
      rw (sym (rounds-allowed_calls cfg.max_retries))
        (Runs-calls (loop-Runs cfg fn wait _ 0 _ none w))

  -- The delays that `WithRetry` asks for are the first ones, in order and fewer than the rounds, of
  -- the sequence that starts at `InitialDelay` and goes on by `min(scale d, MaxDelay)`.
  pub with_retry-delays :
      (k : ℕ) × (k ≤ rounds cfg.max_retries - 1)
      × (delays (with_retry cfg fn wait w).trace ≡ schedule cfg k cfg.initial_delay)
  unfolding with_retry
  with_retry-delays = Runs-delays_first (loop-Runs cfg fn wait _ 0 _ none w)

  -- In a run of `WithRetry` a call is followed by a wait or another call only if it returned an
  -- error with a retryable code, and a wait that the context cut short is followed by nothing: after
  -- success, a panic, another error or a cancellation the operation is not called again.
  pub with_retry-Resumes : Resumes cfg (with_retry cfg fn wait w).trace
  unfolding with_retry
  with_retry-Resumes = Runs-Resumes (loop-Runs cfg fn wait _ 0 _ none w)

  -- `WithRetry` returns nil exactly when the last thing that it did was a call of the operation that
  -- returned nil.
  pub with_retry-nil_iff :
      let r = with_retry cfg fn wait w in
      (r.result ≡ returned none) ↔ (last_or none r.trace ≡ some (called (returned none)))
  unfolding with_retry
  with_retry-nil_iff = Runs-nil none (λ h. cc) (loop-Runs cfg fn wait _ 0 _ none w)
