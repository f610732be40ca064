-- ===== src/Redissub/Subscriber/Tests.antt =====
-- Runs of redissub/subscriber.go.
use gframework.Base.{◌+◌, ◌≡◌, ◌≤◌, refl, Bool, true, Option, none, some, List, [], ◌∷◌, pos, arith}
use gframework.Errors.{GoError, sentinel, ok, err}
use gframework.Redissub.Subscriber.{
  Subscriber, Message, Logged, default_subscriber_config, new_subscriber, with_retry, with_metrics,
  process_with_retry, handle_message,
}
use gframework.Redissub.Subscriber.Counts.{retries, executions}
use gframework.Redissub.Subscriber.Acks.{Settled, reported, handle_message-Settled}
use gframework.Redissub.Subscriber.Script.{scripted, process_with_retry_succeeds}

abbrev orders : Subscriber
orders = record {
  name = "redissub-billing-orders";
  topic = "orders";
  consumer_group = "billing";
  has_handler = true;
  config = record default_subscriber_config {
    metrics = true;
    retry = some (record { max_retries = pos 2; retry_delay = pos 5; dlq_topic = "dead" });
  };
  healthy = Bool.true;
  running = Bool.true;
}

abbrev order : Message
order = record { uuid = "u1"; payload = "{}" }

abbrev timeout : GoError
timeout = sentinel "timeout"

abbrev start : List (Option GoError) → Logged (List (Option GoError))
start w = record { world = w; log = [] }

constructed :
    new_subscriber
      (λ c. none)
      true
      "billing"
      "orders"
      true
      (with_retry (pos 2) (pos 5) "dead" ∷ with_metrics true ∷ [])
    ≡ ok (record orders { healthy = Bool.false; running = Bool.false })
unfolding new_subscriber with_retry with_metrics default_subscriber_config
constructed = refl

no_topic : new_subscriber (λ c. none) true "billing" "" true [] ≡ err (sentinel "ErrEmptyTopicName")
unfolding new_subscriber
no_topic = refl

abbrev doomed : List (Option GoError)
doomed = some timeout ∷ some timeout ∷ some timeout ∷ none ∷ []

handle_message-Settled_example :
    let r = (process_with_retry scripted orders order (start doomed)).0 in
    let (e, t) = handle_message scripted orders order (start doomed) in
    Settled scripted orders order r [] t.log
    × (e ≡ reported r)
    × (executions t.log ≤ 0 + (retries orders.config.retry + 1))
handle_message-Settled_example = handle_message-Settled scripted orders order (start doomed) refl

process_with_retry_succeeds_example :
    let (r, t) = process_with_retry scripted orders order (start (some timeout ∷ none ∷ [])) in
    (r ≡ none) × (t.world ≡ []) × (executions t.log ≡ 0 + 1 + 1)
process_with_retry_succeeds_example =
    process_with_retry_succeeds orders order (timeout ∷ []) [] (start (some timeout ∷ none ∷ []))
      (omega arith) (omega arith) refl
