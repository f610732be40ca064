-- ===== src/Redissub/Subscriber/Acks.antt =====
-- redissub/subscriber.go: what is done for a message once it has been processed.
use gframework.Base.{
  ◌+◌, ◌≤◌, ◌≡◌, true, false, Bool, Option, none, some, List, [], ◌∷◌, arith, if◌then◌else◌, ◌&&◌,
  ◌++◌, ◌∙◌, ap,
}
use gframework.Errors.{GoError, sentinel, join}
use gframework.Redissub.Subscriber.{
  Subscriber, Message, Env, Logged, Effect, process_with_retry, handle_message, settle,
  acknowledge_message, handle_failed_message, dead_letter_step, send_to_dlq, has_dlq, dead_letter,
  max_attempts, DeadLetter,
}
use gframework.Redissub.Subscriber.Counts.{
  retries, max_attempts-retries_le, acks, letters, processed, nacked, one_if, executions,
}
use gframework.Redissub.Subscriber.Attempts.{Tried, process_with_retry-Tried}

-- The error of `handleMessage`, from that of `processWithRetry`.
abbrev pub reported : Option GoError → Option GoError
reported none = none
reported (some e) = some (join (sentinel "ErrMaxRetriesExceeded") e)

abbrev pub failed : Option GoError → Bool
failed none = false
failed (some e) = true

module _ {W : Type 0} (env : Env W) (sub : Subscriber) (msg : Message) where
  -- The dead letters of a message that was processed with result `r`.
  abbrev pub letters_for : Option GoError → List DeadLetter
  letters_for none = []
  letters_for (some e) = elim sub.config.retry [
    | none ↦ []
    | some c ↦ if has_dlq env sub then dead_letter env sub c.dlq_topic msg e ∷ [] else []
  ]

  -- From the log `old` to `new` the message was settled with the result `r` of its processing.
  pub record Settled (r : Option GoError) (old new : List Effect) : Type 0 where
    pub one_ack : acks new ≡ acks old + 1
    pub one_processed : processed new ≡ processed old + one_if sub.config.metrics
    pub nacked_failures : nacked new ≡ nacked old + one_if (failed r && sub.config.metrics)

  settle-Settled :
      (r : Option GoError) (s : Logged W)
      → let (e, t) = settle env sub msg (r, s) in Settled r s.log t.log × (e ≡ reported r)
  unfolding settle acknowledge_message handle_failed_message dead_letter_step send_to_dlq
  settle-Settled none s = ground arith
  settle-Settled (some e) s = ground arith

  settle-letters :
      (r : Option GoError) (s : Logged W)
      → letters (settle env sub msg (r, s)).1.log ≡ letters_for r ++ letters s.log
  unfolding settle acknowledge_message handle_failed_message dead_letter_step send_to_dlq
  settle-letters none s = ground arith
  settle-letters (some e) s = ground arith

  settle-executions :
      (r : Option GoError) (s : Logged W)
      → executions (settle env sub msg (r, s)).1.log ≡ executions s.log
  unfolding settle acknowledge_message handle_failed_message dead_letter_step send_to_dlq
  settle-executions none s = ground arith
  settle-executions (some e) s = ground arith

  handle_message-settle :
      (s : Logged W)
      → sub.has_handler ≡ true
      → handle_message env sub msg s ≡ settle env sub msg (process_with_retry env sub msg s)
  unfolding handle_message
  handle_message-settle s h = simp h

  settled :
      (s : Logged W) (p : Option GoError × Logged W)
      → Tried (max_attempts sub.config.retry) s.log p.1.log
      → let (e, t) = settle env sub msg p in
        Settled p.0 s.log t.log
        × (e ≡ reported p.0)
        × (executions t.log ≤ executions s.log + max_attempts sub.config.retry)
  settled s (r, u) h =
      let (t, same) = settle-Settled r u in
      (ground arith, same, omega (arith, settle-executions r u))

  -- A message with a handler is acknowledged by exactly one call of `Ack`, whether its processing
  -- succeeded, failed, or was cut short; `MessageProcessed` is counted once and `MessageNacked` once
  -- for a failure, if there are metrics; the handler ran at most once and once more for each retry;
  -- and the error is nil for a success and ErrMaxRetriesExceeded joined with the cause otherwise.
  pub handle_message-Settled :
      (s : Logged W)
      → sub.has_handler ≡ true
      → let r = (process_with_retry env sub msg s).0 in
        let (e, t) = handle_message env sub msg s in
        Settled r s.log t.log
        × (e ≡ reported r)
        × (executions t.log ≤ executions s.log + (retries sub.config.retry + 1))
  handle_message-Settled s h =
      let (t, same, few) =
        settled s (process_with_retry env sub msg s) (process_with_retry-Tried env sub msg s) in
      rw (handle_message-settle s h)
        (t, same, omega (arith, max_attempts-retries_le sub.config.retry))

  -- A message whose processing failed is sent to the dead letter queue once, if one is configured,
  -- with its identifier, payload, topic, consumer group and last error; nothing else is sent there.
  pub letters-handle_message :
      (s : Logged W)
      → sub.has_handler ≡ true
      → letters (handle_message env sub msg s).1.log
        ≡ letters_for (process_with_retry env sub msg s).0 ++ letters s.log
  letters-handle_message s h =
      let (r, u) = process_with_retry env sub msg s in
      rw (handle_message-settle s h) (
        settle-letters r u
        ∙ ap (λ l. letters_for r ++ l) (process_with_retry-Tried env sub msg s).quiet.same_letters)
