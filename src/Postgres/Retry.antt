-- ===== src/Postgres/Retry.antt =====
-- postgres/retry.go: retrying a database operation with growing delays.
-- The operation and the wait between attempts act on a state `W` that the model does not look into:
-- the operation returns or panics, and the wait says whether the context was done first. The run also
-- lists what it did, in order. Durations are integers (nanoseconds), `MaxRetries` is an `int`.
pub mod Trace
mod Loop
pub mod Attempts
pub mod Script
pub mod Effects
mod Tests
use gframework.Base.{
  ℕ, zero, suc, ◌+◌, String, ◌≡◌, Bool, true, false, not, Option, none, some, List, [], ◌∷◌, ◌++◌,
  ℤ, pos, negsuc, ◌*ℤ◌, min_ℤ, ◌==◌, contains, if◌then◌else◌,
}
use gframework.Errors.{GoError, foreign, wrap, as_pg, Outcome, returned, panicked}

-- `Multiplier` is a float64; the model has the function `d ↦ Duration(float64(d) * Multiplier)`.
pub record RetryConfig : Type 0 where
  pub max_retries : ℤ
  pub initial_delay : ℤ
  pub max_delay : ℤ
  pub scale : ℤ → ℤ
  pub retryable_errs : List String

-- The delays are below 2 ^ 53 ns, so that doubling a float64 is exact.
unfoldable pub default_retry_config : RetryConfig
unfolding ◌*ℤ◌
default_retry_config = record {
  max_retries = pos 3;
  initial_delay = pos 100_000_000;
  max_delay = pos 5_000_000_000;
  scale = λ d. d *ℤ pos 2;
  retryable_errs = "40001" ∷ "40P01" ∷ "53300" ∷ "08006" ∷ "08003" ∷ [];
}

unfoldable pub is_retryable_error : GoError → List String → Bool
unfolding as_pg
is_retryable_error err codes = elim (as_pg err) [ none ↦ false | some code ↦ contains codes code ]

-- What a run does: a call of the operation with its end, a wait, a wait cut short.
pub data Event : Type 0 where
  called : Outcome → Event
  waited : ℤ → Event
  cancelled : ℤ → Event

pub record Run (W : Type 0) : Type 0 where
  pub result : Outcome
  pub trace : List Event
  pub world : W

abbrev pub emit : {W : Type 0} → List Event → Run W → Run W
emit es r = record r { trace = es ++ r.trace }

-- The error below the loop; with a nil cause the text is all there is.
abbrev pub retry_failed : Option GoError → GoError
retry_failed none = foreign "retry failed"
retry_failed (some e) = wrap "retry failed" e

-- The rounds of `for attempt := 0; attempt <= MaxRetries; attempt++`.
abbrev pub rounds : ℤ → ℕ
rounds (pos n) = suc n
rounds (negsuc n) = 0

abbrev pub is_last : ℕ → ℤ → Bool
is_last attempt (pos n) = attempt == n
is_last attempt (negsuc n) = false

-- What one call settles: the end of the run, or another round after a retryable error.
pub data Verdict : Type 0 where
  done : Outcome → Verdict
  again : GoError → Verdict

pub judge : RetryConfig → ℕ → Outcome → Verdict
judge cfg attempt (panicked v) = done (panicked v)
judge cfg attempt (returned none) = done (returned none)
judge cfg attempt (returned (some e)) =
    if not (is_retryable_error e cfg.retryable_errs)
    then done (returned (some (wrap "non-retryable error" e)))
    else if is_last attempt cfg.max_retries
    then done (returned (some (wrap "max retries exceeded" e)))
    else again e

-- The `select` before every attempt but the first: the delay for the next one, or the context's
-- error if the context is done before the timer.
pub record Pause (W : Type 0) : Type 0 where
  pub stopped : Option GoError
  pub events : List Event
  pub delay : ℤ
  pub world : W

module _ {W : Type 0} (cfg : RetryConfig) (fn : W → Outcome × W)
    (wait : ℤ → W → Option GoError × W) where
  after_wait : ℤ → Option GoError × W → Pause W
  after_wait delay (some e, w) = record {
    stopped = some e;
    events = cancelled delay ∷ [];
    delay = delay;
    world = w;
  }
  after_wait delay (none, w) = record {
    stopped = none;
    events = waited delay ∷ [];
    delay = min_ℤ (cfg.scale delay) cfg.max_delay;
    world = w;
  }

  pause : ℕ → ℤ → W → Pause W
  pause zero delay w = record { stopped = none; events = []; delay = delay; world = w }
  pause (suc attempt) delay w = after_wait delay (wait delay w)

  abbrev pub stop : Outcome → W → Run W
  stop o w = record { result = o; trace = []; world = w }

  pub finish : (GoError → W → Run W) → Verdict → W → Run W
  finish next (done o) w = stop o w
  finish next (again e) w = next e w

  -- The rest of a round, after its pause; `next` is the next round.
  pub proceed : (ℤ → GoError → W → Run W) → ℕ → Pause W → Run W
  proceed next attempt p = elim p.stopped [
    | some e ↦ emit p.events (stop (returned (some (wrap "retry cancelled" e))) p.world)
    | none ↦
        let (o, w) = fn p.world in
        emit (p.events ++ called o ∷ []) (finish (next p.delay) (judge cfg attempt o) w)
  ]

  -- The loop, with the rounds that are left.
  pub loop : ℕ → ℕ → ℤ → Option GoError → W → Run W
  loop zero attempt delay last w = stop (returned (some (retry_failed last))) w
  loop (suc left) attempt delay last w =
      proceed (λ d e. loop left (suc attempt) d (some e)) attempt (pause attempt delay w)

  unfoldable pub with_retry : W → Run W
  unfolding loop proceed finish pause after_wait judge is_retryable_error
  with_retry w = loop (rounds cfg.max_retries) 0 cfg.initial_delay none w
