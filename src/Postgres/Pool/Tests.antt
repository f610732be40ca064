-- ===== src/Postgres/Pool/Tests.antt =====
-- Runs of postgres/postgres.go and postgres/batch.go.
use gframework.Base.{ℕ, String, ◌≡◌, refl, false, none, some, List, [], ◌∷◌, pos, insert}
use gframework.Errors.{sentinel, ok, err}
use gframework.Postgres.Pool.{
  Config, Pgx, new, stop, bulk_insert_structs, open_configured, configured, set_timeout,
}

-- The state is the parameters of the connections; the URL sets one of them.
abbrev pgx : Pgx (List (String × String)) ℕ
pgx = record {
  parse_config = λ url. ok (record {
    max_conns = pos 4;
    min_conns = pos 0;
    max_conn_idle_time = pos 0;
    max_conn_lifetime = pos 0;
    health_check_period = pos 0;
    connect_timeout = pos 0;
    trace_level = 0;
    runtime_params = ("lock_timeout", "url") ∷ [];
  });
  open_pool = λ c w. (none, c.runtime_params);
  ping = λ limit w. (none, w);
  close = λ w. [];
  copy_from = λ table columns rows w. (err (sentinel "no table"), w);
  format_int = λ n. "ms";
}

abbrev config : Config
config = record {
  url = "postgres://";
  max_connection = pos 8;
  min_connection = pos 1;
  max_connection_idle_time = pos 0;
  max_connection_lifetime = pos 0;
  health_check_period = pos 0;
  connect_timeout = pos 0;
  log_level = 3;
  statement_timeout = pos 0;
  lock_timeout = pos 2_000_000;
  idle_in_transaction_timeout = pos 0;
}

runs :
    (new pgx (some config) [] ≡ (none, ("lock_timeout", "ms") ∷ []))
    × (new pgx none [] ≡ (some (sentinel "ErrConfigNil"), []))
    × (stop pgx false [] ≡ (some (sentinel "ErrConnectionPoolNil"), []))
    × (bulk_insert_structs pgx {T = ℕ} false "t" [] [] (λ n. n ∷ []) [] ≡ (ok (pos 0), []))
unfolding new stop bulk_insert_structs open_configured configured set_timeout insert
runs = (refl, refl, refl, refl)
