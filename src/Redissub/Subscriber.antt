-- ===== src/Redissub/Subscriber.antt =====
-- redissub/subscriber.go: configuration, construction, and the handling of one message.
-- The user's handler, the waits, Watermill's `Ack` and Redis's XADD act on a state `W` that the model
-- does not look into; beside it stands the log of what was done for the message, newest first.
-- Log lines are left out, and so is the time that metrics and the dead letter carry.
mod Config
mod Counts
pub mod Attempts
pub mod Acks
pub mod Script
pub mod Lifecycle
mod Tests
pub use Config.{RetryConfig, SubscriberConfig, SubscriberOption, apply_options, Subscriber}
unfoldable pub use Config.{
  with_block_time, with_claim_interval, with_max_idle_time, with_metrics, with_retry,
  with_shutdown_timeout, with_exec_timeout, default_subscriber_config, new_subscriber,
}
use Prim.Native.String
use gframework.Base.{
  ℕ, zero, suc, ◌+◌, String, ◌≡◌, Bool, true, false, not, ◌&&◌, Option, none, some, List, [], ◌∷◌,
  ℤ, pos, negsuc, ltb_ℤ, leb_ℤ, ltb, wrap_64, pos_part, ◌+ℤ◌, str_eq, if◌then◌else◌,
}
use gframework.Errors.{GoError, sentinel, wrap, join, Result, ok, err}

pub record Message : Type 0 where
  pub uuid : String
  pub payload : String

-- The values that `sendToDLQ` adds to the stream.
pub record DeadLetter : Type 0 where
  pub stream : String
  pub uuid : String
  pub payload : String
  pub original_topic : String
  pub consumer_group : String
  pub error : GoError

pub data Effect : Type 0 where
  executed : Option GoError → Effect
  waited : ℤ → Effect
  sent : DeadLetter → Option GoError → Effect
  acked : Bool → Effect
  metric_processed : Option GoError → Effect
  metric_acked metric_nacked metric_sent : Effect

-- What the `select` of `executeWithTimeout` sees first: the handler's end, the deadline of the
-- execution, or another end of the context.
pub data Race : Type 0 where
  finished : Option GoError → Race
  deadline : Race
  cancelled : GoError → Race

-- What the subscriber calls: the handler, the handler against a timeout, the wait before a retry
-- (an error if the context is done first), XADD, and `msg.Ack`.
pub record Env (W : Type 0) : Type 0 where
  pub handler : String → W → Option GoError × W
  pub race : ℤ → String → W → Race × W
  pub wait : ℤ → W → Option GoError × W
  pub xadd : DeadLetter → W → Option GoError × W
  pub ack : Message → W → Bool × W

pub record Logged (W : Type 0) : Type 0 where
  pub world : W
  pub log : List Effect

abbrev pub record_effect : {W : Type 0} → Effect → W → Logged W → Logged W
record_effect e w s = record { world = w; log = e ∷ s.log }

abbrev pub record_metric : {W : Type 0} → Bool → Effect → Logged W → Logged W
record_metric metrics e s = if metrics then record s { log = e ∷ s.log } else s

-- `MaxRetries + 1` is an `int`, which wraps; a loop up to a negative number makes no round.
pub max_attempts : Option RetryConfig → ℕ
max_attempts none = 1
max_attempts (some retry) =
    if ltb_ℤ (pos 0) retry.max_retries then pos_part (wrap_64 (retry.max_retries +ℤ pos 1)) else 1

abbrev race_result : Race → Option GoError
race_result (finished r) = r
race_result deadline = some (wrap "exceeded" (sentinel "ErrExecTimeout"))
race_result (cancelled e) = some e

module _ {W : Type 0} (env : Env W) (sub : Subscriber) where
  execute_with_timeout : Message → Logged W → Option GoError × Logged W
  execute_with_timeout msg s =
      if leb_ℤ sub.config.exec_timeout (pos 0)
      then (let (r, w) = env.handler msg.payload s.world in (r, record_effect (executed r) w s))
      else let (r, w) = env.race sub.config.exec_timeout msg.payload s.world in
        (race_result r, record_effect (executed (race_result r)) w s)

  wait_for_retry : Logged W → Option GoError × Logged W
  wait_for_retry s = elim sub.config.retry [
    | none ↦ (none, s)
    | some r ↦
        if leb_ℤ r.retry_delay (pos 0)
        then (none, s)
        else let (c, w) = env.wait r.retry_delay s.world in
          (c, record_effect (waited r.retry_delay) w s)
  ]

  -- After a failed attempt: a wait and the next round, unless this was the last one. `next` is the
  -- next round.
  after_failure : (Logged W → Option GoError × Logged W) → ℕ → Logged W → Option GoError × Logged W
  after_failure next attempt s = elim (ltb attempt (max_attempts sub.config.retry)) [
    | false ↦ next s
    | true ↦ let (c, s') = wait_for_retry s in elim c [ some e ↦ (some e, s') | none ↦ next s' ]
  ]

  -- The loop of `processWithRetry`, with the rounds that are left.
  attempts : Message → ℕ → ℕ → Option GoError → Logged W → Option GoError × Logged W
  attempts msg zero attempt last s = (last, s)
  attempts msg (suc left) attempt last s =
      let (r, s') = execute_with_timeout msg s in
      elim r [
        | none ↦ (none, s')
        | some e ↦ after_failure (attempts msg left (suc attempt) (some e)) attempt s'
      ]

  pub process_with_retry : Message → Logged W → Option GoError × Logged W
  process_with_retry msg s = attempts msg (max_attempts sub.config.retry) 1 none s

  abbrev pub dead_letter : String → Message → GoError → DeadLetter
  dead_letter stream msg e = record {
    stream = stream;
    uuid = msg.uuid;
    payload = msg.payload;
    original_topic = sub.topic;
    consumer_group = sub.consumer_group;
    error = e;
  }

  send_to_dlq : Message → GoError → Logged W → Option GoError × Logged W
  send_to_dlq msg e s = elim sub.config.retry [
    | none ↦ (none, s)
    | some r ↦
        if str_eq r.dlq_topic ""
        then (none, s)
        else let letter = dead_letter r.dlq_topic msg e in
          let (c, w) = env.xadd letter s.world in (c, record_effect (sent letter c) w s)
  ]

  abbrev pub has_dlq : Bool
  has_dlq = elim sub.config.retry [ none ↦ false | some r ↦ not (str_eq r.dlq_topic "") ]

  dead_letter_step : Message → GoError → Logged W → Logged W
  dead_letter_step msg e s =
      if has_dlq
      then (let (c, s') = send_to_dlq msg e s in
          elim c [ some x ↦ s' | none ↦ record_metric sub.config.metrics metric_sent s' ])
      else s

  handle_failed_message : Message → GoError → Logged W → Logged W
  handle_failed_message msg e s =
      let s1 = dead_letter_step msg e s in
      let (fresh, w) = env.ack msg s1.world in
      record_metric sub.config.metrics metric_nacked (record_effect (acked fresh) w s1)

  acknowledge_message : Message → Logged W → Logged W
  acknowledge_message msg s =
      let (fresh, w) = env.ack msg s.world in
      let s' = record_effect (acked fresh) w s in
      if fresh then record_metric sub.config.metrics metric_acked s' else s'

  settle : Message → Option GoError × Logged W → Option GoError × Logged W
  settle msg (none, s) =
      (none, acknowledge_message msg (record_metric sub.config.metrics (metric_processed none) s))
  settle msg (some e, s) = (
    some (join (sentinel "ErrMaxRetriesExceeded") e),
    handle_failed_message msg e (record_metric sub.config.metrics (metric_processed (some e)) s),
  )

  pub handle_message : Message → Logged W → Option GoError × Logged W
  handle_message msg s =
      if sub.has_handler
      then settle msg (process_with_retry msg s)
      else (some (sentinel "ErrMessageHandlerNotDefined"), s)
