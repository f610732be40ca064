-- ===== src/Demo/Wiring/Startup.antt =====
-- examples/demo-api/main.go: the start of the program.
use Prim.Native.String.{◌++◌ as append}
use mathlib.Core.Path.{subst}
use gframework.Base.{
  String, ◌≡◌, refl, sym, true, false, if◌then◌else◌, Option, none, some, List, [], ◌∷◌, ◌++◌, All,
  map, append-nil, append_assoc, ℤ, pos, str_eq,
}
use gframework.Errors.{GoError, Result, ok, err}
use gframework.Taskqueue
use gframework.Redispub
use gframework.Redissub.Subscriber
use gframework.Redissub.MultiSubscriber.{
  MultiSubscriber, new_multi_subscriber, subscribe, add_subscriber,
}
use gframework.Demo.Config.{Config, postgres_dsn}
use gframework.Demo.Parts.{services}
use gframework.Demo.Wiring.{
  World, init_task_queue, init_valkey_publisher, subscribe_all, init_multi_subscriber, migrated,
  after_migration, then_start, init_postgres, init_valkey, subscribed, publishing, queued,
  with_valkey, with_postgres, with_config, run, subscriber_options,
}

task_queue-made : (q : Taskqueue.Queue) × (init_task_queue true ≡ ok q)
unfolding init_task_queue Taskqueue.new
task_queue-made = (_, refl)

publisher-made :
    {W : Type 0} (stream : Redispub.Stream W)
    → ((entries : ℤ) → stream.connect entries ≡ none)
    → (p : Redispub.RedisPublisher) × (init_valkey_publisher stream true ≡ ok p)
unfolding init_valkey_publisher Redispub.new Redispub.connected
publisher-made stream connects = (
  record { timeout = pos 5_000_000_000; max_len = pos 1_000 },
  rw (connects (pos 1_000), init_valkey_publisher) refl,
)

abbrev subscriber_for : String → Subscriber.Subscriber
subscriber_for topic = record {
  name = append "redissub-" (append "demo-api-consumer-group" (append "-" topic));
  topic = topic;
  consumer_group = "demo-api-consumer-group";
  has_handler = true;
  config = Subscriber.apply_options subscriber_options Subscriber.default_subscriber_config;
  healthy = false;
  running = false;
}

abbrev with_subscribers : List Subscriber.Subscriber → MultiSubscriber
with_subscribers ss = record {
  name = "demo-api-subscriber";
  has_client = true;
  consumer_group = "demo-api-consumer-group";
  subscribers = ss;
  healthy = false;
  opts = subscriber_options;
}

module _ (connect : Subscriber.SubscriberConfig → Option GoError)
    (connects : (config : Subscriber.SubscriberConfig) → connect config ≡ none) where
  subscribe-made :
      (topic : String) (ss : List Subscriber.Subscriber)
      → str_eq topic "" ≡ false
      → subscribe connect topic true (with_subscribers ss)
        ≡ (none, with_subscribers (ss ++ subscriber_for topic ∷ []))
  unfolding subscribe add_subscriber Subscriber.new_subscriber
  subscribe-made topic ss named = rw (named, connects) refl

  subscribe_all-made :
      (topics : List String) (ss : List Subscriber.Subscriber)
      → All (λ topic. str_eq topic "" ≡ false) topics
      → subscribe_all connect topics (with_subscribers ss)
        ≡ ok (with_subscribers (ss ++ map subscriber_for topics))
  unfolding subscribe_all
  subscribe_all-made [] ss named = rw (append-nil ss) refl
  subscribe_all-made (topic ∷ topics) ss named = rw (subscribe-made topic ss named.0) (
      rw (append_assoc ss (subscriber_for topic ∷ []) (map subscriber_for topics)) at
        (subscribe_all-made topics (ss ++ subscriber_for topic ∷ []) named.1))

  multi_subscriber-made :
      (topics : List String)
      → All (λ topic. str_eq topic "" ≡ false) topics
      → init_multi_subscriber connect true topics
        ≡ ok (with_subscribers (map subscriber_for topics))
  unfolding init_multi_subscriber new_multi_subscriber
  multi_subscriber-made topics named = subscribe_all-made topics [] named

-- How the start of the program goes from the state `w`.
module _ {W : Type 0} (world : World W) (digits : ℤ → String) (stream : Redispub.Stream W)
    (connect : Subscriber.SubscriberConfig → Option GoError) (topics : List String)
    (connects : (config : Subscriber.SubscriberConfig) → connect config ≡ none)
    (streams : (entries : ℤ) → stream.connect entries ≡ none)
    (named : All (λ topic. str_eq topic "" ≡ false) topics) where
  abbrev pub migrate : Config → W → Option GoError × W
  migrate cfg w =
      if cfg.migration_enabled
      then world.run_migration (postgres_dsn digits cfg) cfg.migration_source w
      else (none, w)

  pub data Started (w : W) : Option GoError × W → Type 0 where
    no_config : (e d : GoError) → world.config ≡ err e → Started w (some d, w)
    no_migration :
        (cfg : Config) (e : GoError) (w1 : W)
        → world.config ≡ ok cfg
        → migrate cfg w ≡ (some e, w1)
        → Started w (some e, w1)
    no_postgres :
        (cfg : Config) (e d : GoError) (w1 w2 : W)
        → world.config ≡ ok cfg
        → migrate cfg w ≡ (none, w1)
        → world.new_postgres cfg w1 ≡ (some e, w2)
        → Started w (some d, w2)
    no_valkey :
        (cfg : Config) (e d : GoError) (w1 w2 w3 : W)
        → world.config ≡ ok cfg
        → migrate cfg w ≡ (none, w1)
        → world.new_postgres cfg w1 ≡ (none, w2)
        → world.new_valkey cfg w2 ≡ (some e, w3)
        → Started w (some d, w3)
    ran :
        (cfg : Config) (w1 w2 w3 : W)
        → world.config ≡ ok cfg
        → migrate cfg w ≡ (none, w1)
        → world.new_postgres cfg w1 ≡ (none, w2)
        → world.new_valkey cfg w2 ≡ (none, w3)
        → Started w (none, world.run_services services w3)

  queued-ran :
      (w : W)
      → with_valkey world digits stream connect topics (none, w)
        ≡ (none, world.run_services services w)
  unfolding with_valkey queued publishing subscribed
  queued-ran w =
      rw
        (
          task_queue-made.1,
          (publisher-made stream streams).1,
          multi_subscriber-made connect connects topics named,
        )
        refl

  valkey-Started :
      (cfg : Config) (w w1 w2 : W) (p : Option GoError × W)
      → world.config ≡ ok cfg
      → migrate cfg w ≡ (none, w1)
      → world.new_postgres cfg w1 ≡ (none, w2)
      → world.new_valkey cfg w2 ≡ p
      → Started w (
          with_valkey world digits stream connect topics
            (then_start "failed to initialize redis" p (λ w'. (none, w'))))
  unfolding with_valkey
  valkey-Started cfg w w1 w2 (some e, w3) c m g v = no_valkey cfg e _ w1 w2 w3 c m g v
  valkey-Started cfg w w1 w2 (none, w3) c m g v =
      subst (Started w) (sym (queued-ran w3)) (ran cfg w1 w2 w3 c m g v)

  postgres-Started :
      (cfg : Config) (w w1 : W) (p : Option GoError × W)
      → world.config ≡ ok cfg
      → migrate cfg w ≡ (none, w1)
      → world.new_postgres cfg w1 ≡ p
      → Started w (
          with_postgres world digits stream connect topics cfg
            (then_start "failed to initialize postgres" p (λ w'. (none, w'))))
  unfolding with_postgres init_valkey with_valkey
  postgres-Started cfg w w1 (some e, w2) c m g = no_postgres cfg e _ w1 w2 c m g
  postgres-Started cfg w w1 (none, w2) c m g = valkey-Started cfg w w1 w2 _ c m g refl

  migration-Started :
      (cfg : Config) (w : W) (p : Option GoError × W)
      → world.config ≡ ok cfg
      → migrate cfg w ≡ p
      → Started w (
          with_postgres world digits stream connect topics cfg
            (after_migration world digits stream connect topics cfg p))
  unfolding with_postgres after_migration
  migration-Started cfg w (some e, w1) c m = no_migration cfg e w1 c m
  migration-Started cfg w (none, w1) c m = postgres-Started cfg w w1 _ c m refl

  config-Started :
      (w : W) (c : Result Config)
      → world.config ≡ c
      → Started w (with_config world digits stream connect topics c w)
  unfolding with_config init_postgres migrated
  config-Started w (err e) c = no_config e _ c
  config-Started w (ok cfg) c = migration-Started cfg w _ c refl

  -- When Watermill accepts what it is given and every topic has a name, the program runs its services
  -- exactly when the configuration can be read, the migration (if it is enabled) succeeds and both
  -- clients can be made, in this order; else it ends with an error at the first of these that fails, and
  -- runs nothing. The task queue, the publisher and the subscribers are made without an error in every
  -- case: their constant settings pass the checks of the packages.
  pub run-Started : (w : W) → Started w (run world digits stream connect topics w)
  unfolding run
  run-Started w = config-Started w world.config refl
