-- ===== src/Demo/Wiring/Tests.antt =====
-- Runs of examples/demo-api/main.go, and a concrete use of what is proved of it.
use gframework.Base.{ℕ, suc, String, ◌≡◌, refl, true, Option, none, List, [], ◌∷◌, map, ℤ, pos}
use gframework.Errors.{GoError, ok}
use gframework.Redispub
use gframework.Redissub.Subscriber
use gframework.Workerpool
use gframework.Runner
use gframework.Demo.Config.{Config, env_defaults}
use gframework.Demo.Parts.{
  new_task_producer_pool, new_message_publisher_pool, new_task_recovery_pool, services,
  register_routes,
}
use gframework.Demo.Wiring.{World, run}
use gframework.Demo.Wiring.Startup.{Started, run-Started}

abbrev config : Config
config = record env_defaults {
  postgres_host = "db";
  postgres_port = pos 5_432;
  postgres_user = "u";
  postgres_password = "p";
  postgres_database = "d";
  postgres_ssl_mode = "disable";
  migration_enabled = true;
  migration_source = "file://sql";
}

-- The state counts what was done.
abbrev world : Option GoError → World ℕ
world answer = record {
  config = ok config;
  run_migration = λ dsn source n. (none, suc n);
  new_postgres = λ cfg n. (none, suc n);
  new_valkey = λ cfg n. (answer, suc n);
  run_services = λ runner n. suc n;
}

abbrev stream : Redispub.Stream ℕ
stream = record {
  connect = λ entries. none;
  now = λ n. pos 0;
  add_duration = λ t d. t;
  new_uuid = λ n. ("u", n);
  publish = λ topic msgs n. (none, n);
  close = λ n. (none, n);
}

abbrev digits : ℤ → String
digits n = "5432"

abbrev accept : Subscriber.SubscriberConfig → Option GoError
accept c = none

abbrev topics : List String
topics = "demo-api:orders" ∷ "demo-api:notifications" ∷ "demo-api:analytics" ∷ []

run-Started_example :
    Started
      (world none)
      digits
      stream
      accept
      topics
      (λ c. refl)
      (λ n. refl)
      (refl, (refl, (refl, tt)))
      0
      (run (world none) digits stream accept topics 0)
run-Started_example =
    run-Started (world none) digits stream accept topics (λ c. refl) (λ n. refl)
      (refl, (refl, (refl, tt))) 0

runs :
    (services.infrastructure_services ≡ "postgres" ∷ "valkey" ∷ [])
    × (new_task_recovery_pool.name ≡ "task-recovery-pool")
    × (new_task_producer_pool.worker_count ≡ pos 2)
    × (new_message_publisher_pool.exec_timeout ≡ pos 30_000_000_000)
    × (map (λ r. r.handler) (register_routes config)
        ≡ "CheckHealth" ∷ "CheckReadiness" ∷ "CreateUser" ∷ "GetUser" ∷ "UpdateUser" ∷ "ListUsers"
          ∷ [])
unfolding services new_task_recovery_pool new_task_producer_pool new_message_publisher_pool
    register_routes Runner.new Runner.with_core_service Runner.with_infrastructure_service
    Workerpool.new Workerpool.with_name Workerpool.with_worker_count Workerpool.with_tick_interval
    Workerpool.with_execution_timeout
runs = (refl, refl, refl, refl, refl)
