-- ===== src/Redissub/MultiSubscriber.antt =====
-- redissub/multi_subscriber.go: subscribers for several topics, started and stopped together.
-- Here are the registration and what is asked of the group; its life is in the module below.
pub mod Lifecycle
mod Tests
use Prim.Native.String
use gframework.Base.{
  String, Bool, true, false, not, Option, none, some, List, [], ◌∷◌, ◌++◌, ℕ, if◌then◌else◌, str_eq,
  length,
}
use gframework.Errors.{GoError, sentinel, wrap, join, Result, ok, err}
use gframework.Redissub.Subscriber.{Subscriber, SubscriberConfig, SubscriberOption, new_subscriber}

-- `has_client` says whether a Redis client was given.
pub record MultiSubscriber : Type 0 where
  pub name : String
  pub has_client : Bool
  pub consumer_group : String
  pub subscribers : List Subscriber
  pub healthy : Bool
  pub opts : List SubscriberOption

unfoldable pub new_multi_subscriber :
    String → Bool → String → List SubscriberOption → MultiSubscriber
new_multi_subscriber name has_client consumer_group opts = record {
  name = name;
  has_client = has_client;
  consumer_group = consumer_group;
  subscribers = [];
  healthy = false;
  opts = opts;
}

unfoldable pub add_subscriber :
    String → Result Subscriber → MultiSubscriber → Option GoError × MultiSubscriber
add_subscriber topic (err e) m = (some (join (wrap topic (sentinel "ErrSubscriberCreation")) e), m)
add_subscriber topic (ok s) m = (none, record m { subscribers = m.subscribers ++ (s ∷ []) })

-- `connect` is Watermill's `redisstream.NewSubscriber`.
unfoldable pub subscribe :
    (connect : SubscriberConfig → Option GoError) (topic : String) (has_handler : Bool)
    → MultiSubscriber
    → Option GoError × MultiSubscriber
subscribe connect topic has_handler m =
    if str_eq topic ""
    then (some (sentinel "ErrEmptyTopic"), m)
    else if not has_handler
    then (some (sentinel "ErrNilMessageHandler"), m)
    else add_subscriber topic
        (new_subscriber connect m.has_client m.consumer_group topic has_handler m.opts) m

pub all_healthy : List Subscriber → Bool
all_healthy [] = true
all_healthy (s ∷ ss) = if s.healthy then all_healthy ss else false

pub is_healthy : MultiSubscriber → Bool
is_healthy m = if m.healthy then all_healthy m.subscribers else false

pub subscriber_count : MultiSubscriber → ℕ
subscriber_count m = length m.subscribers
