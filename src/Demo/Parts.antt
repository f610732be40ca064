-- ===== src/Demo/Parts.antt =====
-- examples/demo-api/main.go: the pools, the services that run, and the routes.
use gframework.Base.{String, Bool, false, not, List, [], ◌∷◌, pos}
use gframework.Workerpool
use gframework.Runner
use gframework.Demo.Config.{Config}

unfoldable pub new_task_producer_pool : Workerpool.WorkerPool
new_task_producer_pool = Workerpool.new (
    Workerpool.with_name "task-producer-pool"
    ∷ Workerpool.with_worker_count (pos 2)
    ∷ Workerpool.with_tick_interval (pos 5_000_000_000)
    ∷ Workerpool.with_execution_timeout (pos 10_000_000_000)
    ∷ [])

unfoldable pub new_message_publisher_pool : Workerpool.WorkerPool
new_message_publisher_pool = Workerpool.new (
    Workerpool.with_name "message-publisher-pool"
    ∷ Workerpool.with_worker_count (pos 1)
    ∷ Workerpool.with_tick_interval (pos 10_000_000_000)
    ∷ Workerpool.with_execution_timeout (pos 30_000_000_000)
    ∷ [])

unfoldable pub new_task_recovery_pool : Workerpool.WorkerPool
new_task_recovery_pool = Workerpool.new (
    Workerpool.with_name "task-recovery-pool"
    ∷ Workerpool.with_worker_count (pos 1)
    ∷ Workerpool.with_tick_interval (pos 60_000_000_000)
    ∷ Workerpool.with_execution_timeout (pos 10_000_000_000)
    ∷ [])

-- The services, by their names.
unfoldable pub services : Runner.Runner
services = Runner.new (
    Runner.with_infrastructure_service "postgres"
    ∷ Runner.with_infrastructure_service "valkey"
    ∷ Runner.with_core_service "metric"
    ∷ Runner.with_core_service "http"
    ∷ Runner.with_core_service "task-producer-pool"
    ∷ Runner.with_core_service "taskqueue:demo-api:tasks"
    ∷ Runner.with_core_service "message-publisher-pool"
    ∷ Runner.with_core_service "task-recovery-pool"
    ∷ Runner.with_core_service "demo-api-subscriber"
    ∷ [])

pub record Route : Type 0 where
  pub method : String
  pub path : String
  pub needs_request_id : Bool
  pub handler : String

unfoldable pub register_routes : Config → List Route
register_routes cfg =
    record { method = "GET"; path = "/health"; needs_request_id = false; handler = "CheckHealth" }
    ∷ record {
      method = "GET";
      path = "/ready";
      needs_request_id = false;
      handler = "CheckReadiness";
    }
    ∷ record {
      method = "POST";
      path = "/v1/users";
      needs_request_id = not cfg.http_skip_request_id;
      handler = "CreateUser";
    }
    ∷ record {
      method = "GET";
      path = "/v1/users/:userId";
      needs_request_id = not cfg.http_skip_request_id;
      handler = "GetUser";
    }
    ∷ record {
      method = "PATCH";
      path = "/v1/users/:userId";
      needs_request_id = not cfg.http_skip_request_id;
      handler = "UpdateUser";
    }
    ∷ record {
      method = "GET";
      path = "/v1/users";
      needs_request_id = not cfg.http_skip_request_id;
      handler = "ListUsers";
    }
    ∷ []
