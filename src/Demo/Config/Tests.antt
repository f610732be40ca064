-- ===== src/Demo/Config/Tests.antt =====
-- A run of examples/demo-api/internal/config/config.go.
use gframework.Base.{◌≡◌, refl, false, pos}
use gframework.Demo.Config.{Config, env_defaults, postgres_dsn}

abbrev local : Config
local = record env_defaults {
  postgres_host = "localhost";
  postgres_port = pos 5_441;
  postgres_user = "postgres";
  postgres_password = "secret";
  postgres_database = "admindb";
  postgres_ssl_mode = "disable";
  migration_enabled = false;
  migration_source = "file://db/migrations";
}

runs :
    postgres_dsn (λ n. "5441") local
    ≡ "host=localhost port=5441 user=postgres password=secret dbname=admindb sslmode=disable"
unfolding postgres_dsn
runs = refl
