-- ===== src/Demo/Wiring.antt =====
-- examples/demo-api/main.go: how the example's program starts.
pub mod Startup
mod Tests
use gframework.Base.{
  ℕ, String, Bool, true, false, Option, none, some, not, List, [], ◌∷◌, ◌++◌, ℤ, pos, if◌then◌else◌,
}
use gframework.Errors.{GoError, wrap, Result, ok, err}
use gframework.Taskqueue
use gframework.Redispub
use gframework.Redissub.Subscriber
use gframework.Redissub.MultiSubscriber.{MultiSubscriber, new_multi_subscriber, subscribe}
use gframework.Workerpool
use gframework.Runner
use gframework.Postgres.Pool
use gframework.Valkey
use gframework.Logutil.{Level}
use gframework.Demo.Parts.{services}
use gframework.Demo.Clients.{new_postgres, new_valkey}
use gframework.Demo.Config.{Config, postgres_dsn}

-- `client` says whether the Valkey client has one of go-redis.
pub init_task_queue : (client : Bool) → Result Taskqueue.Queue
init_task_queue client =
    elim (Taskqueue.new client "demo-api:tasks" true (
      Taskqueue.with_worker_count (pos 3)
      ∷ Taskqueue.with_exec_timeout (pos 10_000_000_000)
      ∷ [])) [ ok queue ↦ ok queue | err e ↦ err (wrap "failed to initialize task queue" e) ]

pub init_valkey_publisher :
    {W : Type 0} → Redispub.Stream W → (client : Bool) → Result Redispub.RedisPublisher
init_valkey_publisher stream client =
    elim (Redispub.new stream client
      (record { max_stream_entries = pos 1_000; timeout = pos 5_000_000_000 })) [
        | ok p ↦ ok p
        | err e ↦ err (wrap "failed to initialize redis publisher" e)
      ]

abbrev after_subscribe :
    String
    → Option GoError × MultiSubscriber
    → (MultiSubscriber → Result MultiSubscriber)
    → Result MultiSubscriber
after_subscribe topic (some e, m) next = err (wrap "failed to subscribe to topic" (wrap topic e))
after_subscribe topic (none, m) next = next m

-- The topics, in the order in which Go walks over the map.
subscribe_all :
    (connect : Subscriber.SubscriberConfig → Option GoError) (topics : List String)
    → MultiSubscriber
    → Result MultiSubscriber
subscribe_all connect [] m = ok m
subscribe_all connect (topic ∷ topics) m =
    after_subscribe topic (subscribe connect topic true m) (λ m'. subscribe_all connect topics m')

abbrev pub subscriber_options : List Subscriber.SubscriberOption
subscriber_options =
    Subscriber.with_exec_timeout (pos 30_000_000_000)
    ∷ Subscriber.with_shutdown_timeout (pos 10_000_000_000)
    ∷ Subscriber.with_retry (pos 3) (pos 100_000_000) "demo-api:dlq"
    ∷ []

pub init_multi_subscriber :
    (connect : Subscriber.SubscriberConfig → Option GoError) (client : Bool) (topics : List String)
    → Result MultiSubscriber
init_multi_subscriber connect client topics =
    subscribe_all connect topics (
      new_multi_subscriber "demo-api-subscriber" client "demo-api-consumer-group"
        subscriber_options)

-- What happens to the outside: migrations, the clients made, and the run of the services.
pub record World (W : Type 0) : Type 0 where
  pub config : Result Config
  pub run_migration : (dsn source : String) → W → Option GoError × W
  pub new_postgres : Config → W → Option GoError × W
  pub new_valkey : Config → W → Option GoError × W
  pub run_services : Runner.Runner → W → W

-- The clients as the packages make them.
pub world_of :
    {W A C P : Type 0} (config : Result Config)
    (run_migration : (dsn source : String) → W → Option GoError × W)
    (run_services : Runner.Runner → W → W) (pgx : Pool.Pgx W A) (valkey : Valkey.Env W C P)
    (digits : ℤ → String) (level_number : Level → ℕ)
    → World W
world_of config run_migration run_services pgx valkey digits level_number = record {
  config = config;
  run_migration = run_migration;
  new_postgres = λ cfg w. new_postgres pgx digits level_number cfg w;
  new_valkey = λ cfg w. (new_valkey valkey cfg, w);
  run_services = run_services;
}

-- An error ends the start; `text` wraps it.
abbrev then_start :
    {W : Type 0} → String → Option GoError × W → (W → Option GoError × W) → Option GoError × W
then_start text (some e, w) next = (some (wrap text e), w)
then_start text (none, w) next = next w

module _ {W : Type 0} (world : World W) (digits : ℤ → String) (stream : Redispub.Stream W)
    (connect : Subscriber.SubscriberConfig → Option GoError) (topics : List String) where
  migrated : Config → W → Option GoError × W
  migrated cfg w =
      if cfg.migration_enabled
      then world.run_migration (postgres_dsn digits cfg) cfg.migration_source w
      else (none, w)

  -- An error of the migration is not wrapped again.
  after_migration : Config → Option GoError × W → Option GoError × W
  after_migration cfg (some e, w) = (some e, w)
  after_migration cfg (none, w) =
      then_start "failed to initialize postgres" (world.new_postgres cfg w) (λ w'. (none, w'))

  init_postgres : Config → W → Option GoError × W
  init_postgres cfg w = after_migration cfg (migrated cfg w)

  init_valkey : Config → W → Option GoError × W
  init_valkey cfg w =
      then_start "failed to initialize redis" (world.new_valkey cfg w) (λ w2. (none, w2))

  subscribed : Result MultiSubscriber → W → Option GoError × W
  subscribed (err e) w = (some e, w)
  subscribed (ok m) w = (none, world.run_services services w)

  publishing : Result Redispub.RedisPublisher → W → Option GoError × W
  publishing (err e) w = (some e, w)
  publishing (ok p) w = subscribed (init_multi_subscriber connect true topics) w

  queued : Result Taskqueue.Queue → W → Option GoError × W
  queued (err e) w = (some e, w)
  queued (ok q) w = publishing (init_valkey_publisher stream true) w

  with_valkey : Option GoError × W → Option GoError × W
  with_valkey (some e, w) = (some e, w)
  with_valkey (none, w) = queued (init_task_queue true) w

  with_postgres : Config → Option GoError × W → Option GoError × W
  with_postgres cfg (some e, w) = (some e, w)
  with_postgres cfg (none, w) = with_valkey (init_valkey cfg w)

  with_config : Result Config → W → Option GoError × W
  with_config (err e) w = (some (wrap "failed to load config" e), w)
  with_config (ok cfg) w = with_postgres cfg (init_postgres cfg w)

  pub run : W → Option GoError × W
  run w = with_config world.config w
