-- ===== src/Redissub/Subscriber/Attempts.antt =====
-- redissub/subscriber.go: the attempts at one message.
use gframework.Base.{
  ℕ, zero, suc, ◌+◌, ◌≤◌, ◌≡◌, Option, none, some, List, arith, Option-cases, inl, inr,
}
use gframework.Errors.{GoError}
use gframework.Redissub.Subscriber.{
  Subscriber, Message, Effect, Env, Logged, max_attempts, execute_with_timeout, wait_for_retry,
  after_failure, attempts, process_with_retry,
}
use gframework.Redissub.Subscriber.Counts.{executions, Quiet}

-- Between two logs only waits and at most `k` executions were added.
pub record Tried (k : ℕ) (old new : List Effect) : Type 0 where
  pub quiet : Quiet old new
  pub bounded : executions new ≤ executions old + k

module _ {W : Type 0} (env : Env W) (sub : Subscriber) (msg : Message) where
  execute-Quiet : (s : Logged W) → Quiet s.log (execute_with_timeout env sub msg s).1.log
  unfolding execute_with_timeout
  execute-Quiet s = ground arith

  execute-executions :
      (s : Logged W) → executions (execute_with_timeout env sub msg s).1.log ≡ executions s.log + 1
  unfolding execute_with_timeout
  execute-executions s = ground arith

  wait-Quiet :
      (s : Logged W)
      → let t = (wait_for_retry env sub s).1 in
        Quiet s.log t.log × (executions t.log ≡ executions s.log)
  unfolding wait_for_retry
  wait-Quiet s = ground arith

  after_failure-Tried :
      (next : Logged W → Option GoError × Logged W) (n k : ℕ) (s : Logged W)
      → ((t : Logged W) → Tried k t.log (next t).1.log)
      → Tried k s.log (after_failure env sub next n s).1.log
  unfolding after_failure
  after_failure-Tried next n k s h =
      ground (arith, h s, h (wait_for_retry env sub s).1, wait-Quiet s)

  attempts-Tried :
      (left n : ℕ) (last : Option GoError) (s : Logged W)
      → Tried left s.log (attempts env sub msg left n last s).1.log
  unfolding attempts
  attempts-Tried zero n last s = ground arith
  attempts-Tried (suc left) n last s = elim (Option-cases (execute_with_timeout env sub msg s).0) [
    | inl h ↦ rw (h, attempts) (ground (arith, execute-Quiet s, execute-executions s))
    | inr (e, h) ↦
        rw (h, attempts)
          (ground (
            arith,
            execute-Quiet s,
            execute-executions s,
            after_failure-Tried (attempts env sub msg left (suc n) (some e)) n left
                (execute_with_timeout env sub msg s).1 (attempts-Tried left (suc n) (some e)),
          ))
  ]

  -- Processing a message executes the handler at most `max_attempts` times, and does nothing but
  -- executions and waits.
  pub process_with_retry-Tried :
      (s : Logged W)
      → Tried (max_attempts sub.config.retry) s.log (process_with_retry env sub msg s).1.log
  unfolding process_with_retry
  process_with_retry-Tried s = attempts-Tried (max_attempts sub.config.retry) 1 none s
