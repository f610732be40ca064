-- ===== src/Redissub/Subscriber/Config.antt =====
-- redissub/subscriber.go: the configuration of a subscriber, and its construction.
use Prim.Native.String
use gframework.Base.{
  String, Bool, false, not, Option, none, some, List, [], ◌∷◌, ℤ, pos, str_eq, if◌then◌else◌,
}
use gframework.Errors.{GoError, sentinel, wrap, Result, ok, err}

pub record RetryConfig : Type 0 where
  pub max_retries : ℤ
  pub retry_delay : ℤ
  pub dlq_topic : String

-- `metrics` says whether a Metrics was given.
pub record SubscriberConfig : Type 0 where
  pub block_time : ℤ
  pub claim_interval : ℤ
  pub max_idle_time : ℤ
  pub shutdown_timeout : ℤ
  pub exec_timeout : ℤ
  pub metrics : Bool
  pub retry : Option RetryConfig

unfoldable pub default_subscriber_config : SubscriberConfig
default_subscriber_config = record {
  block_time = pos 0;
  claim_interval = pos 0;
  max_idle_time = pos 0;
  shutdown_timeout = pos 20_000_000_000;
  exec_timeout = pos 30_000_000_000;
  metrics = false;
  retry = none;
}

abbrev pub SubscriberOption : Type 0
SubscriberOption = SubscriberConfig → SubscriberConfig

unfoldable pub with_block_time : ℤ → SubscriberOption
with_block_time d c = record c { block_time = d }

unfoldable pub with_claim_interval : ℤ → SubscriberOption
with_claim_interval d c = record c { claim_interval = d }

unfoldable pub with_max_idle_time : ℤ → SubscriberOption
with_max_idle_time d c = record c { max_idle_time = d }

unfoldable pub with_metrics : Bool → SubscriberOption
with_metrics m c = record c { metrics = m }

unfoldable pub with_retry : ℤ → ℤ → String → SubscriberOption
with_retry max_retries retry_delay dlq_topic c = record c {
  retry =
      some (record { max_retries = max_retries; retry_delay = retry_delay; dlq_topic = dlq_topic });
}

unfoldable pub with_shutdown_timeout : ℤ → SubscriberOption
with_shutdown_timeout d c = record c { shutdown_timeout = d }

unfoldable pub with_exec_timeout : ℤ → SubscriberOption
with_exec_timeout d c = record c { exec_timeout = d }

abbrev pub apply_options : List SubscriberOption → SubscriberConfig → SubscriberConfig
apply_options [] c = c
apply_options (o ∷ os) c = apply_options os (o c)

-- `has_handler` says whether `messageHandler` is not nil.
pub record Subscriber : Type 0 where
  pub name : String
  pub topic : String
  pub consumer_group : String
  pub has_handler : Bool
  pub config : SubscriberConfig
  pub healthy : Bool
  pub running : Bool

-- `connect` is Watermill's `redisstream.NewSubscriber`.
unfoldable pub new_subscriber :
    (connect : SubscriberConfig → Option GoError) (has_client : Bool)
    (consumer_group topic : String) (has_handler : Bool)
    → List SubscriberOption
    → Result Subscriber
new_subscriber connect has_client consumer_group topic has_handler opts =
    let config = apply_options opts default_subscriber_config in
    if not has_client
    then err (sentinel "ErrNilRedisClient")
    else if str_eq consumer_group ""
    then err (sentinel "ErrEmptyConsumerGroup")
    else if str_eq topic ""
    then err (sentinel "ErrEmptyTopicName")
    else if not has_handler
    then err (sentinel "ErrNilMessageHandler")
    else elim (connect config) [
      | some e ↦ err (wrap "failed to create Redis subscriber" e)
      | none ↦ ok (record {
        name = String.◌++◌ "redissub-" (String.◌++◌ consumer_group (String.◌++◌ "-" topic));
        topic = topic;
        consumer_group = consumer_group;
        has_handler = has_handler;
        config = config;
        healthy = false;
        running = false;
      })
    ]
