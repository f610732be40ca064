-- ===== src/Postgres/Pool.antt =====
-- postgres/postgres.go and postgres/batch.go: a pool with its settings, and bulk inserts.
mod Tests
use gframework.Base.{
  ℕ, String, Bool, true, false, Option, none, some, List, [], ◌∷◌, map, ℤ, pos, ltb_ℤ, quot_ℤ,
  insert, if◌then◌else◌,
}
use gframework.Errors.{GoError, sentinel, wrap, Result, ok, err}

pub record Config : Type 0 where
  pub url : String
  pub max_connection : ℤ
  pub min_connection : ℤ
  pub max_connection_idle_time : ℤ
  pub max_connection_lifetime : ℤ
  pub health_check_period : ℤ
  pub connect_timeout : ℤ
  pub log_level : ℕ
  pub statement_timeout : ℤ
  pub lock_timeout : ℤ
  pub idle_in_transaction_timeout : ℤ

-- pgxpool.Config, with the parameters that each connection sets.
pub record PoolConfig : Type 0 where
  pub max_conns : ℤ
  pub min_conns : ℤ
  pub max_conn_idle_time : ℤ
  pub max_conn_lifetime : ℤ
  pub health_check_period : ℤ
  pub connect_timeout : ℤ
  pub trace_level : ℕ
  pub runtime_params : List (String × String)

-- pgx on a state `W`; `A` are values of columns. `format_int` is strconv.FormatInt with base 10.
pub record Pgx (W A : Type 0) : Type 0 where
  pub parse_config : String → Result PoolConfig
  pub open_pool : PoolConfig → W → Option GoError × W
  pub ping : ℤ → W → Option GoError × W
  pub close : W → W
  pub copy_from : String → List String → List (List A) → W → Result ℤ × W
  pub format_int : ℤ → String

module _ {W A : Type 0} (pgx : Pgx W A) where
  -- A timeout that is not positive is not set.
  set_timeout : String → ℤ → List (String × String) → List (String × String)
  set_timeout name timeout params =
      if ltb_ℤ (pos 0) timeout
      then insert name (pgx.format_int (quot_ℤ timeout (pos 1_000_000))) params
      else params

  configured : Config → PoolConfig → PoolConfig
  configured cfg pg = record {
    max_conns = cfg.max_connection;
    min_conns = cfg.min_connection;
    max_conn_idle_time = cfg.max_connection_idle_time;
    max_conn_lifetime = cfg.max_connection_lifetime;
    health_check_period = cfg.health_check_period;
    connect_timeout = cfg.connect_timeout;
    trace_level = cfg.log_level;
    runtime_params =
        set_timeout "idle_in_transaction_session_timeout" cfg.idle_in_transaction_timeout (
          set_timeout "lock_timeout" cfg.lock_timeout
            (set_timeout "statement_timeout" cfg.statement_timeout pg.runtime_params));
  }

  open_configured : Config → Result PoolConfig → W → Option GoError × W
  open_configured cfg (err e) w = (some e, w)
  open_configured cfg (ok pg) w = pgx.open_pool (configured cfg pg) w

  pub new : Option Config → W → Option GoError × W
  new none w = (some (sentinel "ErrConfigNil"), w)
  new (some cfg) w = open_configured cfg (pgx.parse_config cfg.url) w

  pinged : Option GoError × W → Option GoError × W
  pinged (none, w) = (none, w)
  pinged (some e, w) = (some (wrap "postgres ping failed" e), w)

  pub start : W → Option GoError × W
  start w = pinged (pgx.ping (pos 5_000_000_000) w)

  -- The pool may be nil.
  pub stop : Bool → W → Option GoError × W
  stop false w = (some (sentinel "ErrConnectionPoolNil"), w)
  stop true w = (none, pgx.close w)

  copied : Result ℤ × W → Result ℤ × W
  copied (ok count, w) = (ok count, w)
  copied (err e, w) = (err (wrap "postgres bulk insert failed" e), w)

  pub bulk_insert : Bool → String → List String → List (List A) → W → Result ℤ × W
  bulk_insert false table columns rows w = (err (sentinel "ErrConnectionPoolNil"), w)
  bulk_insert true table columns [] w = (ok (pos 0), w)
  bulk_insert true table columns (row ∷ rows) w =
      copied (pgx.copy_from table columns (row ∷ rows) w)

  -- Without structs, not even a missing pool is an error.
  pub bulk_insert_structs :
      {T : Type 0} → Bool → String → List String → List T → (T → List A) → W → Result ℤ × W
  bulk_insert_structs has_pool table columns [] extract w = (ok (pos 0), w)
  bulk_insert_structs has_pool table columns (item ∷ items) extract w =
      bulk_insert has_pool table columns (map extract (item ∷ items)) w
