-- ===== src/Postgres/Retry/Script.antt =====
-- postgres/retry.go against an operation whose results are given in advance.
use gframework.Base.{
  ℕ, zero, suc, ◌+◌, ◌≤◌, ◌<◌, ◌≡◌, refl, Option, none, some, List, [], ◌∷◌, ◌++◌, map, true, ℤ,
  pos, min_ℤ, length, All, arith,
}
use gframework.Errors.{GoError, wrap, Outcome, returned}
use gframework.Postgres.Retry.{
  RetryConfig, is_retryable_error, rounds, done, again, judge, finish, loop, with_retry,
}
use gframework.Postgres.Retry.Loop.{loop-first, loop-fired}
use gframework.Postgres.Retry.Trace.{calls}

-- The operation that returns the listed results in order, and nil after them.
abbrev pub scripted : List Outcome → Outcome × List Outcome
scripted [] = (returned none, [])
scripted (o ∷ os) = (o, os)

-- The timer always fires.
abbrev pub patient : ℤ → List Outcome → Option GoError × List Outcome
patient d w = (none, w)

abbrev pub failing : List GoError → List Outcome
failing = map (λ e. returned (some e))

abbrev pub Retryable : RetryConfig → List GoError → Type 0
Retryable cfg = All (λ e. is_retryable_error e cfg.retryable_errs ≡ true)

judge-retry :
    (cfg : RetryConfig) (n m : ℕ) (e : GoError)
    → cfg.max_retries ≡ pos m
    → is_retryable_error e cfg.retryable_errs ≡ true
    → n < m
    → judge cfg n (returned (some e)) ≡ again e
unfolding judge
judge-retry cfg n m e max h below = rw (h, max) (ground arith)

judge-exceeded :
    (cfg : RetryConfig) (n m : ℕ) (e : GoError)
    → cfg.max_retries ≡ pos m
    → is_retryable_error e cfg.retryable_errs ≡ true
    → n ≡ m
    → judge cfg n (returned (some e)) ≡ done (returned (some (wrap "max retries exceeded" e)))
unfolding judge
judge-exceeded cfg n m e max h same = rw (h, max) (ground arith)

module _ (cfg : RetryConfig) (m : ℕ) (max : cfg.max_retries ≡ pos m) where
  loop_succeeds :
      (fs : List GoError) (rest : List Outcome) (left n : ℕ) (d : ℤ) (last : Option GoError)
      → Retryable cfg fs
      → n + length fs ≤ m
      → n + left ≡ m + 1
      → let r = loop cfg scripted patient left n d last (failing fs ++ returned none ∷ rest) in
        (r.result ≡ returned none) × (calls r.trace ≡ length fs + 1) × (r.world ≡ rest)
  unfolding finish judge
  loop_succeeds fs rest zero n d last h fits sum = absurd (omega arith)
  loop_succeeds [] rest (suc left) zero d last h fits sum =
      rw (loop-first cfg scripted patient left d last _) (refl, omega arith, refl)
  loop_succeeds [] rest (suc left) (suc n) d last h fits sum =
      rw (loop-fired cfg scripted patient left n d last _ refl) (refl, omega arith, refl)
  loop_succeeds (e ∷ fs) rest (suc left) zero d last (he, h) fits sum =
      let (ok, count, world) =
        loop_succeeds fs rest left 1 d (some e) h (omega arith) (omega arith) in
      rw (loop-first cfg scripted patient left d last _, judge-retry cfg 0 m e max he (omega arith))
        (ok, omega arith, world)
  loop_succeeds (e ∷ fs) rest (suc left) (suc n) d last (he, h) fits sum =
      let (ok, count, world) =
        loop_succeeds fs rest left (suc (suc n)) (min_ℤ (cfg.scale d) cfg.max_delay) (some e) h
          (omega arith) (omega arith) in
      rw
        (
          loop-fired cfg scripted patient left n d last _ refl,
          judge-retry cfg (suc n) m e max he (omega arith),
        )
        (ok, omega arith, world)

  loop_exceeds :
      (fs : List GoError) (e : GoError) (rest : List Outcome) (left n : ℕ) (d : ℤ)
      (last : Option GoError)
      → Retryable cfg (fs ++ e ∷ [])
      → n + length fs ≡ m
      → n + left ≡ m + 1
      → let r = loop cfg scripted patient left n d last (failing (fs ++ e ∷ []) ++ rest) in
        (r.result ≡ returned (some (wrap "max retries exceeded" e)))
        × (calls r.trace ≡ length fs + 1)
        × (r.world ≡ rest)
  unfolding finish
  loop_exceeds fs e rest zero n d last h fits sum = absurd (omega arith)
  loop_exceeds [] e rest (suc left) zero d last (he, h) fits sum =
      rw
        (
          loop-first cfg scripted patient left d last _,
          judge-exceeded cfg 0 m e max he (omega arith),
        )
        (refl, omega arith, refl)
  loop_exceeds [] e rest (suc left) (suc n) d last (he, h) fits sum =
      rw
        (
          loop-fired cfg scripted patient left n d last _ refl,
          judge-exceeded cfg (suc n) m e max he (omega arith),
        )
        (refl, omega arith, refl)
  loop_exceeds (f ∷ fs) e rest (suc left) zero d last (hf, h) fits sum =
      let (ok, count, world) =
        loop_exceeds fs e rest left 1 d (some f) h (omega arith) (omega arith) in
      rw (loop-first cfg scripted patient left d last _, judge-retry cfg 0 m f max hf (omega arith))
        (ok, omega arith, world)
  loop_exceeds (f ∷ fs) e rest (suc left) (suc n) d last (hf, h) fits sum =
      let (ok, count, world) =
        loop_exceeds fs e rest left (suc (suc n)) (min_ℤ (cfg.scale d) cfg.max_delay) (some f) h
          (omega arith) (omega arith) in
      rw
        (
          loop-fired cfg scripted patient left n d last _ refl,
          judge-retry cfg (suc n) m f max hf (omega arith),
        )
        (ok, omega arith, world)

rounds_of : {z : ℤ} {m : ℕ} → z ≡ pos m → 0 + rounds z ≡ m + 1
rounds_of h = rw h (omega arith)

-- If the operation fails with retryable errors no more than `MaxRetries` times and then succeeds, and
-- no wait is cut short, then `WithRetry` returns nil after one call for each result.
pub with_retry_succeeds :
    (cfg : RetryConfig) (m : ℕ) (fs : List GoError) (rest : List Outcome)
    → cfg.max_retries ≡ pos m
    → Retryable cfg fs
    → length fs ≤ m
    → let r = with_retry cfg scripted patient (failing fs ++ returned none ∷ rest) in
      (r.result ≡ returned none) × (calls r.trace ≡ length fs + 1) × (r.world ≡ rest)
unfolding with_retry
with_retry_succeeds cfg m fs rest max h fits =
    loop_succeeds cfg m max fs rest (rounds cfg.max_retries) 0 cfg.initial_delay none h
      (omega arith) (rounds_of max)

-- If the operation's first `MaxRetries + 1` results are retryable errors, and no wait is cut short,
-- then `WithRetry` gives up after as many calls and its error wraps the last of them.
pub with_retry_exceeds :
    (cfg : RetryConfig) (m : ℕ) (fs : List GoError) (e : GoError) (rest : List Outcome)
    → cfg.max_retries ≡ pos m
    → Retryable cfg (fs ++ e ∷ [])
    → length fs ≡ m
    → let r = with_retry cfg scripted patient (failing (fs ++ e ∷ []) ++ rest) in
      (r.result ≡ returned (some (wrap "max retries exceeded" e)))
      × (calls r.trace ≡ m + 1)
      × (r.world ≡ rest)
unfolding with_retry
with_retry_exceeds cfg m fs e rest max h fits =
    let (failed, count, world) =
      loop_exceeds cfg m max fs e rest (rounds cfg.max_retries) 0 cfg.initial_delay none h
        (omega arith) (rounds_of max) in
    (failed, omega arith, world)
