-- ===== src/Demo/Clients.antt =====
-- examples/demo-api/main.go: the settings of the servers and the clients, from those of the program.
mod Tests
use gframework.Base.{
  ℕ, String, Bool, true, false, Option, none, some, ◌-◌, ◌%◌, ltb, ℤ, pos, negsuc, if◌then◌else◌,
}
use gframework.Errors.{GoError, Result, ok, err, wrap}
use gframework.Httpserver.Server
use gframework.Metricserver
use gframework.Postgres.Pool
use gframework.Valkey
use gframework.Logutil.{Level, parse_postgres_log_level}
use gframework.Middleware.Claims.{Stored}
use gframework.Demo.Config.{Config, postgres_dsn}

-- Go's conversion to int32.
abbrev word_32 : ℤ → ℕ
word_32 (pos n) = n % 4294967296
word_32 (negsuc n) = 4294967295 - n % 4294967296

abbrev signed_32 : ℕ → ℤ
signed_32 w = if ltb w 2147483648 then pos w else negsuc (4294967295 - w)

pub int_32 : ℤ → ℤ
int_32 z = signed_32 (word_32 z)

pub http_config : Config → Server.Config
http_config cfg = record {
  host = cfg.http_server_host;
  port = cfg.http_server_port;
  enable_cors = cfg.http_enable_cors;
  allow_origins = cfg.http_allow_origins;
  body_limit = cfg.http_body_limit;
  read_timeout = cfg.http_server_read_timeout;
  write_timeout = cfg.http_server_write_timeout;
  grace_period = cfg.graceful_shutdown_period;
}

-- Without its routes.
pub new_http_server :
    (join_host_port : String → ℤ → String) (parse_int : String → Option ℤ)
    (type_name : Stored → String)
    → Config
    → Server.Server
new_http_server join_host_port parse_int type_name cfg =
    Server.new join_host_port parse_int type_name (http_config cfg)

pub metric_config : Config → Metricserver.Config
metric_config cfg = record {
  host = cfg.metric_server_host;
  port = cfg.metric_server_port;
  read_timeout = cfg.metric_server_read_timeout;
  write_timeout = cfg.metric_server_write_timeout;
  grace_period = cfg.graceful_shutdown_period;
}

pub new_metric_server : (join_host_port : String → ℤ → String) → Config → Metricserver.Server
new_metric_server join_host_port cfg = Metricserver.new join_host_port (metric_config cfg)

-- `level_number` is the number of a level in pgx's package tracelog.
pub postgres_config : (digits : ℤ → String) (level_number : Level → ℕ) → Config → Pool.Config
postgres_config digits level_number cfg = record {
  url = postgres_dsn digits cfg;
  max_connection = int_32 cfg.postgres_max_connection;
  min_connection = int_32 cfg.postgres_min_connection;
  max_connection_idle_time = cfg.postgres_max_connection_idle_time;
  max_connection_lifetime = cfg.postgres_max_connection_lifetime;
  health_check_period = cfg.postgres_health_check_period;
  connect_timeout = cfg.postgres_connect_timeout;
  log_level = level_number (parse_postgres_log_level cfg.postgres_log_level);
  statement_timeout = cfg.postgres_statement_timeout;
  lock_timeout = cfg.postgres_lock_timeout;
  idle_in_transaction_timeout = cfg.postgres_idle_in_transaction_timeout;
}

pub new_postgres :
    {W A : Type 0} (pgx : Pool.Pgx W A) (digits : ℤ → String) (level_number : Level → ℕ)
    → Config
    → W
    → Option GoError × W
new_postgres pgx digits level_number cfg w =
    Pool.new pgx (some (postgres_config digits level_number cfg)) w

pub valkey_config : Config → Valkey.Config
valkey_config cfg = record {
  host = cfg.valkey_host;
  port = cfg.valkey_port;
  password = cfg.valkey_password;
  db = cfg.valkey_db;
  dial_timeout = cfg.valkey_dial_timeout;
  max_idle_conns = cfg.valkey_max_idle_conns;
  min_idle_conns = cfg.valkey_min_idle_conns;
  ping_timeout = cfg.valkey_ping_timeout;
  pool_size = cfg.valkey_pool_size;
  read_timeout = cfg.valkey_read_timeout;
  write_timeout = cfg.valkey_write_timeout;
  max_retries = pos 0;
  min_retry_backoff = pos 0;
  max_retry_backoff = pos 0;
  tls_enabled = false;
  tls_skip_verify = false;
  tls_cert_file = "";
  tls_key_file = "";
  tls_ca_file = "";
}

abbrev error_of : {A : Type 0} → Result A → Option GoError
error_of (ok a) = none
error_of (err e) = some e

-- Making the client connects to nothing.
pub new_valkey : {W C P : Type 0} → Valkey.Env W C P → Config → Option GoError
new_valkey env cfg = error_of (Valkey.new env (some (valkey_config cfg))).0
