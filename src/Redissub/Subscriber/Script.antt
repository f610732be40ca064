-- ===== src/Redissub/Subscriber/Script.antt =====
-- redissub/subscriber.go against a handler whose results are given in advance.
use gframework.Base.{
  ℕ, zero, suc, ◌+◌, ◌<◌, ◌≤◌, ◌≡◌, refl, Option, none, some, true, List, [], ◌∷◌, ◌++◌, map,
  length, arith, ltb, if◌then◌else◌, ap, ◌∙◌,
}
use gframework.Errors.{GoError}
use gframework.Redissub.Subscriber.{
  Subscriber, Message, Env, finished, Logged, max_attempts, execute_with_timeout, wait_for_retry,
  after_failure, attempts, process_with_retry,
}
use gframework.Redissub.Subscriber.Counts.{executions, retries, max_attempts-retries}

abbrev pub pop : List (Option GoError) → Option GoError × List (Option GoError)
pop [] = (none, [])
pop (r ∷ rs) = (r, rs)

-- The handler returns the listed results in order, in time; waits are not cut short; Redis and `Ack`
-- do what they are asked.
abbrev pub scripted : Env (List (Option GoError))
scripted = record {
  handler = λ p w. pop w;
  race = λ d p w. (finished (pop w).0, (pop w).1);
  wait = λ d w. (none, w);
  xadd = λ l w. (none, w);
  ack = λ m w. (true, w);
}

abbrev pub failing : List GoError → List (Option GoError)
failing = map some

module _ (sub : Subscriber) (msg : Message) where
  execute-scripted :
      (s : Logged (List (Option GoError)))
      → let (r, t) = execute_with_timeout scripted sub msg s in
        (r ≡ (pop s.world).0)
        × (t.world ≡ (pop s.world).1)
        × (executions t.log ≡ executions s.log + 1)
  unfolding execute_with_timeout
  execute-scripted s = ground arith

  wait-scripted :
      (s : Logged (List (Option GoError)))
      → let (r, t) = wait_for_retry scripted sub s in
        (r ≡ none) × (t.world ≡ s.world) × (executions t.log ≡ executions s.log)
  unfolding wait_for_retry
  wait-scripted s = ground arith

  -- The state in which the next round starts.
  next_state : ℕ → Logged (List (Option GoError)) → Logged (List (Option GoError))
  next_state n s =
      if ltb n (max_attempts sub.config.retry) then (wait_for_retry scripted sub s).1 else s

  next_state_same :
      (n : ℕ) (s : Logged (List (Option GoError)))
      → ((next_state n s).world ≡ s.world) × (executions (next_state n s).log ≡ executions s.log)
  unfolding next_state
  next_state_same n s = ground (arith, wait-scripted s)

  after_failure-scripted :
      (next : Logged (List (Option GoError)) → Option GoError × Logged (List (Option GoError)))
      (n : ℕ) (s : Logged (List (Option GoError)))
      → after_failure scripted sub next n s ≡ next (next_state n s)
  unfolding after_failure next_state
  after_failure-scripted next n s = ground (arith, wait-scripted s)

  attempts-ok :
      (left n : ℕ) (last : Option GoError) (s : Logged (List (Option GoError)))
      → (pop s.world).0 ≡ none
      → attempts scripted sub msg (suc left) n last s
        ≡ (none, (execute_with_timeout scripted sub msg s).1)
  unfolding attempts
  attempts-ok left n last s h = rw ((execute-scripted s).0, attempts, h) refl

  attempts-failed :
      (left n : ℕ) (last : Option GoError) (s : Logged (List (Option GoError))) {e : GoError}
      → (pop s.world).0 ≡ some e
      → attempts scripted sub msg (suc left) n last s
        ≡ attempts scripted sub msg left
            (suc n)
            (some e)
            (next_state n (execute_with_timeout scripted sub msg s).1)
  unfolding attempts
  attempts-failed left n last s h =
      rw ((execute-scripted s).0, attempts, h) (after_failure-scripted _ n _)

  attempts_succeed :
      (fs : List GoError) (rest : List (Option GoError)) (left n : ℕ) (last : Option GoError)
      (s : Logged (List (Option GoError)))
      → length fs < left
      → s.world ≡ failing fs ++ none ∷ rest
      → let (r, t) = attempts scripted sub msg left n last s in
        (r ≡ none) × (t.world ≡ rest) × (executions t.log ≡ executions s.log + length fs + 1)
  attempts_succeed fs rest zero n last s below h = absurd (omega arith)
  attempts_succeed [] rest (suc left) n last s below h =
      rw (attempts-ok left n last s (ap (λ w. (pop w).0) h))
        (refl, (execute-scripted s).1 ∙ ap (λ w. (pop w).1) h, omega (arith, execute-scripted s))
  attempts_succeed (e ∷ fs) rest (suc left) n last s below h =
      let s' = (execute_with_timeout scripted sub msg s).1 in
      let (r, w, count) =
        attempts_succeed fs rest left (suc n) (some e) (next_state n s') (omega arith)
          ((next_state_same n s').0 ∙ (execute-scripted s).1 ∙ ap (λ w. (pop w).1) h) in
      rw (attempts-failed left n last s (ap (λ w. (pop w).0) h))
        (r, w, omega (arith, execute-scripted s, next_state_same n s'))

  attempts_fail :
      (fs : List GoError) (e : GoError) (rest : List (Option GoError)) (left n : ℕ)
      (last : Option GoError) (s : Logged (List (Option GoError)))
      → length fs + 1 ≡ left
      → s.world ≡ failing (fs ++ e ∷ []) ++ rest
      → let (r, t) = attempts scripted sub msg left n last s in
        (r ≡ some e) × (t.world ≡ rest) × (executions t.log ≡ executions s.log + left)
  attempts_fail fs e rest zero n last s below h = absurd (omega arith)
  attempts_fail [] e rest (suc zero) n last s below h =
      let s' = (execute_with_timeout scripted sub msg s).1 in
      rw (attempts-failed 0 n last s (ap (λ w. (pop w).0) h)) (
        unfold attempts in
        (
          refl,
          (next_state_same n s').0 ∙ (execute-scripted s).1 ∙ ap (λ w. (pop w).1) h,
          omega (arith, execute-scripted s, next_state_same n s'),
        ))
  attempts_fail [] e rest (suc (suc left)) n last s below h = absurd (omega arith)
  attempts_fail (f ∷ fs) e rest (suc left) n last s below h =
      let s' = (execute_with_timeout scripted sub msg s).1 in
      let (r, w, count) =
        attempts_fail fs e rest left (suc n) (some f) (next_state n s') (omega arith)
          ((next_state_same n s').0 ∙ (execute-scripted s).1 ∙ ap (λ w. (pop w).1) h) in
      rw (attempts-failed left n last s (ap (λ w. (pop w).0) h))
        (r, w, omega (arith, execute-scripted s, next_state_same n s'))

  -- If the handler fails at most as often as there are retries (none without a retry configuration) and
  -- then succeeds, in time and with no wait cut short, then `processWithRetry` returns nil after as many
  -- executions and one more. The number of retries is below the largest `int`, so that one more is
  -- no overflow.
  pub process_with_retry_succeeds :
      (fs : List GoError) (rest : List (Option GoError)) (s : Logged (List (Option GoError)))
      → retries sub.config.retry < 9223372036854775807
      → length fs ≤ retries sub.config.retry
      → s.world ≡ failing fs ++ none ∷ rest
      → let (r, t) = process_with_retry scripted sub msg s in
        (r ≡ none) × (t.world ≡ rest) × (executions t.log ≡ executions s.log + length fs + 1)
  unfolding process_with_retry
  process_with_retry_succeeds fs rest s room few =
      attempts_succeed fs rest _ 1 none s
        (omega (arith, max_attempts-retries sub.config.retry room))

  -- If the handler's first results are as many errors as there are retries and one more, with no wait
  -- cut short, and if their number does not overflow, then `processWithRetry` returns the last of
  -- them after as many executions.
  pub process_with_retry_fails :
      (fs : List GoError) (e : GoError) (rest : List (Option GoError))
      (s : Logged (List (Option GoError)))
      → retries sub.config.retry < 9223372036854775807
      → length fs ≡ retries sub.config.retry
      → s.world ≡ failing (fs ++ e ∷ []) ++ rest
      → let (r, t) = process_with_retry scripted sub msg s in
        (r ≡ some e)
        × (t.world ≡ rest)
        × (executions t.log ≡ executions s.log + (retries sub.config.retry + 1))
  unfolding process_with_retry
  process_with_retry_fails fs e rest s room all h =
      let allowed = max_attempts-retries sub.config.retry room in
      let (r, w, count) =
        attempts_fail fs e rest (max_attempts sub.config.retry) 1 none s (omega (arith, allowed))
          h in
      (r, w, omega (arith, allowed))
