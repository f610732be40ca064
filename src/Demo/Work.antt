-- ===== src/Demo/Work.antt =====
-- examples/demo-api/internal/publisher, internal/executor and internal/handler: the events that the
-- service publishes and receives, and the work of its pools. Log lines are left out.
pub mod Sending
mod Tests
use Prim.Native.String.{◌++◌ as append}
use gframework.Base.{ℕ, zero, suc, ◌+◌, String, Option, none, some, List, [], ◌∷◌, ℤ, pos, ◌*ℤ◌}
use gframework.Errors.{GoError, wrap, Result, ok, err}
use gframework.Redispub.{RedisPublisher, Stream, publish_to_topic}
use gframework.Taskqueue

pub record Event : Type 0 where
  pub id : String
  pub topic : String
  pub timestamp : ℤ
  pub event_type : String

pub record EventPublisher : Type 0 where
  pub publisher : RedisPublisher
  pub topic : String
  pub event_type : String

pub new_order_publisher : RedisPublisher → String → EventPublisher
new_order_publisher p topic = record { publisher = p; topic = topic; event_type = "order_created" }

pub new_notification_publisher : RedisPublisher → String → EventPublisher
new_notification_publisher p topic = record {
  publisher = p;
  topic = topic;
  event_type = "notification_sent";
}

pub new_analytics_publisher : RedisPublisher → String → EventPublisher
new_analytics_publisher p topic = record {
  publisher = p;
  topic = topic;
  event_type = "analytics_event";
}

-- A call with an error that may be nil, on a state.
abbrev pub Call : Type 0 → Type 0
Call W = W → Option GoError × W

abbrev wrapped : {W : Type 0} → String → Option GoError × W → Option GoError × W
wrapped text (none, w) = (none, w)
wrapped text (some e, w) = (some (wrap text e), w)

abbrev pub and_then : {W : Type 0} → Option GoError × W → Call W → Option GoError × W
and_then (none, w) next = next w
and_then (some e, w) next = (some e, w)

-- `for range n` around a call whose error is returned.
pub repeat : {W : Type 0} → ℕ → Call W → Call W
repeat zero call w = (none, w)
repeat (suc n) call w = and_then (call w) (repeat n call)

abbrev event_text : String → EventPublisher → String
event_text start p = append start (append p.event_type " event")

-- `marshal` is json.Marshal, and `deadline` that of the caller's context.
module _ {W : Type 0} (stream : Stream W) (marshal : Event → Result String)
    (deadline : Option ℤ) where
  publish_data : EventPublisher → Result String → Call W
  publish_data p (err e) w = (some (wrap (event_text "failed to marshal " p) e), w)
  publish_data p (ok payload) w =
      wrapped (event_text "failed to publish " p)
        (publish_to_topic stream p.publisher deadline p.topic (payload ∷ []) w)

  pub publish : EventPublisher → Call W
  publish p w =
      let (id, w1) = stream.new_uuid w in
      publish_data p
        (marshal (record {
          id = id;
          topic = p.topic;
          timestamp = stream.now w1;
          event_type = p.event_type;
        }))
        w1

-- `int_n` is rand.IntN.
module _ {W : Type 0} (int_n : ℕ → W → ℕ × W) where
  some_times : Call W → Call W
  some_times call w = let (k, w1) = int_n 3 w in repeat (k + 1) call w1

  -- The three calls are PublishOrder, PublishNotification and PublishAnalytics.
  pub message_publisher_execute : (order notification analytics : Call W) → Call W
  message_publisher_execute order notification analytics w =
      and_then (some_times order w)
        (λ w1. and_then (some_times notification w1) (λ w2. some_times analytics w2))

  -- `wait` returns nil when the time is over, or the context's error if it ends first.
  pub task_consumer_execute : (wait : ℤ → Call W) → Call W
  task_consumer_execute wait w =
      let (k, w1) = int_n 3 w in wait (pos (k + 1) *ℤ pos 1_000_000_000) w1

-- The handlers of messages wait for a random time, in nanoseconds, and never fail.
module _ {W : Type 0} (int_n : ℕ → W → ℕ × W) (sleep : ℤ → W → W) where
  handle_after : (most least : ℕ) → Call W
  handle_after most least w =
      let (k, w1) = int_n most w in (none, sleep (pos (k + least) *ℤ pos 1_000_000) w1)

  pub handle_order : Call W
  handle_order = handle_after 500 100

  pub handle_notification : Call W
  handle_notification = handle_after 300 50

  pub handle_analytics : Call W
  handle_analytics = handle_after 200 50

module _ {W : Type 0} (env : Taskqueue.Env W) (queue : Taskqueue.Queue) where
  -- The payload of task `i` of a batch at an instant, `format` being fmt.Appendf with time.Format.
  module _ (new_uuid : W → String × W) (format : ℕ → ℤ → String) where
    -- The tasks from number `i` on.
    new_tasks : (i left : ℕ) → W → List Taskqueue.Task × W
    new_tasks i zero w = ([], w)
    new_tasks i (suc left) w =
        let (id, w1) = new_uuid w in
        let (now, w2) = env.now w1 in
        let (rest, w3) = new_tasks (suc i) left w2 in
        (record { id = id; payload = format i now } ∷ rest, w3)

    pub task_producer_execute : (int_n : ℕ → W → ℕ × W) → Call W
    task_producer_execute int_n w =
        let (k, w1) = int_n 5 w in
        let (tasks, w2) = new_tasks 0 (k + 1) w1 in
        wrapped "failed to push tasks" (Taskqueue.push env queue tasks w2)

  recovered : Result ℕ → Option GoError
  recovered (ok n) = none
  recovered (err e) = some (wrap "failed to recover stale tasks" e)

  -- Two minutes, in nanoseconds.
  pub task_recovery_execute : Taskqueue.Logged W → Option GoError × Taskqueue.Logged W
  task_recovery_execute s =
      let (r, s') = Taskqueue.recover_stale env queue (pos 120_000_000_000) s in (recovered r, s')
