-- ===== src/Postgres/Transaction.antt =====
-- postgres/transaction.go, and `WithRetryTx` of postgres/retry.go.
-- The driver (pgx) and the body of the transaction act on a state `W` that the model does not look
-- into; beside it stands the log of what was done to transactions, newest first. A driver call
-- returns an error or nil, the body may panic too.
pub mod Log
pub mod Once
pub mod Codes
mod Tests
use gframework.Base.{ℕ, ◌≡◌, Option, none, some, List, [], ◌∷◌, ℤ}
use gframework.Errors.{GoError, sentinel, join, Outcome, returned, panicked}
use gframework.Postgres.Retry.{RetryConfig, Run, with_retry, default_retry_config}

pub data IsoLevel : Type 0 where
  default_level read_committed repeatable_read serializable : IsoLevel

pub data AccessMode : Type 0 where
  default_mode read_only read_write : AccessMode

pub record TxOptions : Type 0 where
  pub iso_level : IsoLevel
  pub access_mode : AccessMode

-- The interface value `DBPool`: nil, a *pgxpool.Pool, or another implementation.
pub data DbPool : Type 0 where
  nil_pool pgx_pool other_pool : DbPool

pub data TxEvent : Type 0 where
  begun : TxOptions → TxEvent
  committed : Option GoError → TxEvent
  rolled_back : Option GoError → TxEvent

pub record Logged (W : Type 0) : Type 0 where
  pub world : W
  pub log : List TxEvent

-- What pgx does.
pub record Driver (W : Type 0) : Type 0 where
  pub begin_tx : TxOptions → W → Option GoError × W
  pub commit : W → Option GoError × W
  pub rollback : W → Option GoError × W

module _ {W : Type 0} (driver : Driver W) (pool : DbPool) where
  abbrev note : TxEvent → List TxEvent → W → Logged W
  note e log w = record { world = w; log = e ∷ log }

  rolled : GoError → Option GoError → Outcome
  rolled e none = returned (some (join (sentinel "ErrTxRolledBack") e))
  rolled e (some rb) =
      returned (
        some
          (join (sentinel "ErrTxRolledBack") (join e (join (sentinel "ErrTxRollbackFailed") rb))))

  commit_error : Option GoError → Outcome
  commit_error none = returned none
  commit_error (some e) = returned (some (join (sentinel "ErrTxCommitFailed") e))

  -- After the body has ended; a panic is passed on after the rollback.
  end_tx : Outcome → Logged W → Outcome × Logged W
  end_tx (panicked v) s =
      let (err, w) = driver.rollback s.world in (panicked v, note (rolled_back err) s.log w)
  end_tx (returned (some e)) s =
      let (err, w) = driver.rollback s.world in (rolled e err, note (rolled_back err) s.log w)
  end_tx (returned none) s =
      let (err, w) = driver.commit s.world in (commit_error err, note (committed err) s.log w)

  -- After `BeginTx`.
  run_tx : TxOptions → (W → Outcome × W) → List TxEvent → Option GoError × W → Outcome × Logged W
  run_tx options fn log (some e, w) =
      (returned (some (join (sentinel "ErrBeginTxFailed") e)), record { world = w; log = log })
  run_tx options fn log (none, w) = let (o, w') = fn w in end_tx o (note (begun options) log w')

  in_pool : DbPool → TxOptions → (W → Outcome × W) → Logged W → Outcome × Logged W
  in_pool nil_pool options fn s = (returned (some (sentinel "ErrConnectionPoolNil")), s)
  in_pool other_pool options fn s = (returned (some (sentinel "ErrDBPoolCastFailed")), s)
  in_pool pgx_pool options fn s = run_tx options fn s.log (driver.begin_tx options s.world)

  pub with_transaction_options : TxOptions → (W → Outcome × W) → Logged W → Outcome × Logged W
  unfolding in_pool run_tx end_tx rolled commit_error
  with_transaction_options = in_pool pool

  unfoldable pub with_transaction : (W → Outcome × W) → Logged W → Outcome × Logged W
  unfolding with_transaction_options
  with_transaction =
      with_transaction_options (record { iso_level = default_level; access_mode = default_mode })

  pub with_read_only_transaction : (W → Outcome × W) → Logged W → Outcome × Logged W
  unfolding with_transaction_options
  with_read_only_transaction =
      with_transaction_options (record { iso_level = read_committed; access_mode = read_only })

  pub with_serializable_transaction : (W → Outcome × W) → Logged W → Outcome × Logged W
  unfolding with_transaction_options
  with_serializable_transaction =
      with_transaction_options (record { iso_level = serializable; access_mode = read_write })

  pub with_repeatable_read_transaction : (W → Outcome × W) → Logged W → Outcome × Logged W
  unfolding with_transaction_options
  with_repeatable_read_transaction =
      with_transaction_options (record { iso_level = repeatable_read; access_mode = read_write })

  -- Waiting does nothing to transactions.
  abbrev pub idle : (ℤ → W → Option GoError × W) → ℤ → Logged W → Option GoError × Logged W
  idle wait d s = let (c, w) = wait d s.world in (c, record s { world = w })

  pub with_retry_tx :
      RetryConfig → (ℤ → W → Option GoError × W) → (W → Outcome × W) → Logged W → Run (Logged W)
  unfolding with_retry
  with_retry_tx cfg wait fn = with_retry cfg (with_transaction fn) (idle wait)

  pub with_retry_tx_default :
      (ℤ → W → Option GoError × W) → (W → Outcome × W) → Logged W → Run (Logged W)
  unfolding with_retry_tx default_retry_config
  with_retry_tx_default = with_retry_tx default_retry_config
