-- ===== src/Demo/Config.antt =====
-- examples/demo-api/internal/config/config.go: the settings of the example's programs. Reading the
-- environment is the library's; a duration is in nanoseconds.
mod Tests
use Prim.Native.String.{◌++◌ as append}
use gframework.Base.{String, Bool, true, false, List, [], ◌∷◌, ℤ, pos}

pub record Config : Type 0 where
  pub log_level : String
  pub http_server_host : String
  pub http_server_port : ℤ
  pub http_enable_cors : Bool
  pub http_body_limit : String
  pub http_server_read_timeout : ℤ
  pub http_server_write_timeout : ℤ
  pub http_skip_request_id : Bool
  pub http_allow_origins : List String
  pub metric_server_host : String
  pub metric_server_port : ℤ
  pub metric_server_read_timeout : ℤ
  pub metric_server_write_timeout : ℤ
  pub graceful_shutdown_period : ℤ
  pub postgres_host : String
  pub postgres_port : ℤ
  pub postgres_user : String
  pub postgres_password : String
  pub postgres_database : String
  pub postgres_ssl_mode : String
  pub postgres_max_connection : ℤ
  pub postgres_min_connection : ℤ
  pub postgres_max_connection_idle_time : ℤ
  pub postgres_max_connection_lifetime : ℤ
  pub postgres_health_check_period : ℤ
  pub postgres_connect_timeout : ℤ
  pub postgres_statement_timeout : ℤ
  pub postgres_lock_timeout : ℤ
  pub postgres_idle_in_transaction_timeout : ℤ
  pub postgres_log_level : String
  pub valkey_host : String
  pub valkey_port : ℤ
  pub valkey_password : String
  pub valkey_db : ℤ
  pub valkey_dial_timeout : ℤ
  pub valkey_read_timeout : ℤ
  pub valkey_write_timeout : ℤ
  pub valkey_pool_size : ℤ
  pub valkey_min_idle_conns : ℤ
  pub valkey_max_idle_conns : ℤ
  pub valkey_ping_timeout : ℤ
  pub migration_enabled : Bool
  pub migration_source : String

-- The defaults in the tags, for an empty environment.
abbrev pub env_defaults : Config
env_defaults = record {
  log_level = "info";
  http_server_host = "0.0.0.0";
  http_server_port = pos 8_080;
  http_enable_cors = true;
  http_body_limit = "10M";
  http_server_read_timeout = pos 30_000_000_000;
  http_server_write_timeout = pos 30_000_000_000;
  http_skip_request_id = false;
  http_allow_origins = "*" ∷ [];
  metric_server_host = "0.0.0.0";
  metric_server_port = pos 9_090;
  metric_server_read_timeout = pos 10_000_000_000;
  metric_server_write_timeout = pos 10_000_000_000;
  graceful_shutdown_period = pos 10_000_000_000;
  postgres_host = "localhost";
  postgres_port = pos 5_441;
  postgres_user = "postgres";
  postgres_password = "password";
  postgres_database = "admindb";
  postgres_ssl_mode = "disable";
  postgres_max_connection = pos 25;
  postgres_min_connection = pos 5;
  postgres_max_connection_idle_time = pos 1_800_000_000_000;
  postgres_max_connection_lifetime = pos 3_600_000_000_000;
  postgres_health_check_period = pos 60_000_000_000;
  postgres_connect_timeout = pos 10_000_000_000;
  postgres_statement_timeout = pos 30_000_000_000;
  postgres_lock_timeout = pos 10_000_000_000;
  postgres_idle_in_transaction_timeout = pos 30_000_000_000;
  postgres_log_level = "info";
  valkey_host = "localhost";
  valkey_port = pos 6_379;
  valkey_password = "password";
  valkey_db = pos 0;
  valkey_dial_timeout = pos 5_000_000_000;
  valkey_read_timeout = pos 3_000_000_000;
  valkey_write_timeout = pos 3_000_000_000;
  valkey_pool_size = pos 10;
  valkey_min_idle_conns = pos 2;
  valkey_max_idle_conns = pos 5;
  valkey_ping_timeout = pos 3_000_000_000;
  migration_enabled = false;
  migration_source = "file://db/migrations";
}

-- `digits` is the verb %d of package fmt.
unfoldable pub postgres_dsn : (digits : ℤ → String) → Config → String
postgres_dsn digits c = append "host=" (
    append c.postgres_host (
      append " port=" (
        append (digits c.postgres_port) (
          append " user=" (
            append c.postgres_user (
              append " password=" (
                append c.postgres_password (
                  append " dbname="
                    (append c.postgres_database (append " sslmode=" c.postgres_ssl_mode))))))))))
