-- ===== src/Postgres/Health.antt =====
-- postgres/health.go: the health check of a connection pool.
pub mod Answers
mod Tests
use gframework.Base.{
  ℕ, String, ◌≡◌, Bool, true, false, Option, none, some, List, [], ◌∷◌, str_eq, if◌then◌else◌, ℤ,
  pos,
}
use gframework.Errors.{Result, ok, err, GoError, sentinel, wrap}

pub record HealthCheckOptions : Type 0 where
  pub timeout : ℤ
  pub require_active_conns : Bool
  pub min_idle_conns : ℤ
  pub check_query_execution : Bool
  pub custom_health_check_sql : String

abbrev pub HealthCheckOption : Type 0
HealthCheckOption = HealthCheckOptions → HealthCheckOptions

pub with_health_check_timeout : ℤ → HealthCheckOption
with_health_check_timeout timeout opts = record opts { timeout = timeout }

pub with_require_active_conns : HealthCheckOption
with_require_active_conns opts = record opts { require_active_conns = true }

pub with_min_idle_conns : ℤ → HealthCheckOption
with_min_idle_conns min_conns opts = record opts { min_idle_conns = min_conns }

pub with_custom_health_check_sql : String → HealthCheckOption
with_custom_health_check_sql sql opts = record opts {
  check_query_execution = true;
  custom_health_check_sql = sql;
}

abbrev pub apply_options : List HealthCheckOption → HealthCheckOptions → HealthCheckOptions
apply_options [] opts = opts
apply_options (o ∷ os) opts = apply_options os (o opts)

abbrev pub default_options : HealthCheckOptions
default_options = record {
  timeout = pos 5_000_000_000;
  require_active_conns = false;
  min_idle_conns = pos 0;
  check_query_execution = false;
  custom_health_check_sql = "";
}

-- The pool, under the timeout of the check.
pub record Env (W : Type 0) : Type 0 where
  pub ping : ℤ → W → Option GoError × W
  pub query_row : ℤ → String → W → Option GoError × W

abbrev pub or_default : String → String
or_default sql = if str_eq sql "" then "SELECT 1" else sql

abbrev wrapped : String → Option GoError → Option GoError
wrapped text none = none
wrapped text (some e) = some (wrap text e)

module _ {W : Type 0} (env : Env W) where
  unfoldable pub run_query : HealthCheckOptions → W → Option GoError × W
  run_query opts w =
      if opts.check_query_execution
      then (let (e, w') = env.query_row opts.timeout (or_default opts.custom_health_check_sql) w in
          (wrapped "postgres health check query failed" e, w'))
      else (none, w)

  unfoldable pub after_ping : HealthCheckOptions → Option GoError × W → Option GoError × W
  after_ping opts (some e, w) = (some (wrap "postgres health check ping failed" e), w)
  after_ping opts (none, w) = run_query opts w

  -- `pool` says whether there is one.
  unfoldable pub health_check : Bool → List HealthCheckOption → W → Option GoError × W
  health_check pool os w =
      if pool
      then (let opts = apply_options os default_options in
          after_ping opts (env.ping opts.timeout w))
      else (some (sentinel "ErrConnectionPoolNil"), w)

  abbrev is_nil : Option GoError → Bool
  is_nil none = true
  is_nil (some e) = false

  pub is_healthy : Bool → W → Bool × W
  unfolding health_check
  is_healthy pool w = let (e, w') = health_check pool [] w in (is_nil e, w')

pub record PoolStats : Type 0 where
  pub acquire_count : ℤ
  pub acquire_duration : ℤ
  pub acquired_conns : ℤ
  pub canceled_acquire_count : ℤ
  pub constructing_conns : ℤ
  pub empty_acquire_count : ℤ
  pub idle_conns : ℤ
  pub max_conns : ℤ
  pub total_conns : ℤ
  pub new_conns_count : ℤ
  pub max_lifetime_destroy_count : ℤ
  pub max_idle_destroy_count : ℤ

-- The statistics of pgx, if the pool is one of its own.
pub get_pool_stats : Option PoolStats → Result PoolStats
get_pool_stats none = err (sentinel "ErrPoolStatsUnavailable")
get_pool_stats (some stats) = ok stats
