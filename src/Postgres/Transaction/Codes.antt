-- ===== src/Postgres/Transaction/Codes.antt =====
-- postgres/transaction.go: what a caller can read off the error of a failed transaction.
use gframework.Base.{or_else, ◌≡◌, refl, true, Option, none, some, List, arith}
use gframework.Errors.{GoError, Outcome, returned, is, as_pg, code_of}
use gframework.Postgres.Transaction.{
  TxOptions, pgx_pool, Logged, Driver, TxEvent, end_tx, run_tx, in_pool, rolled,
  with_transaction_options,
}

module _ {W : Type 0} (driver : Driver W) (options : TxOptions) (fn : W → Outcome × W) where
  rolled-codes :
      (e : GoError) (rb : Option GoError)
      → (err : GoError) × (rolled driver pgx_pool e rb ≡ returned (some err))
        × (is err "ErrTxRolledBack" ≡ true)
        × (as_pg err ≡ or_else (as_pg e) (code_of rb))
  unfolding rolled is as_pg
  rolled-codes e none = (_, refl, refl, ground arith)
  rolled-codes e (some rb) = (_, refl, refl, refl)

  run_tx-failed :
      (log : List TxEvent) (p : Option GoError × W) {e : GoError}
      → p.0 ≡ none
      → (fn p.1).0 ≡ returned (some e)
      → (run_tx driver pgx_pool options fn log p).0
        ≡ rolled driver pgx_pool e (driver.rollback (fn p.1).1).0
  unfolding run_tx end_tx
  run_tx-failed log (some x, w) h k = cc
  run_tx-failed log (none, w) h k = rw k

  -- When `BeginTx` succeeds and the body returns an error, the error of `WithTransactionOptions` is
  -- an ErrTxRolledBack, and its PostgreSQL code is that of the body's error, or, if that has none, the
  -- code of the error of the rollback.
  pub with_transaction_options-code :
      (s : Logged W) (e : GoError)
      → let (begin_err, w) = driver.begin_tx options s.world in
        begin_err ≡ none
        → (fn w).0 ≡ returned (some e)
        → (err : GoError) × ((with_transaction_options driver pgx_pool options fn s).0
            ≡ returned (some err))
          × (is err "ErrTxRolledBack" ≡ true)
          × (as_pg err ≡ or_else (as_pg e) (code_of (driver.rollback (fn w).1).0))
  unfolding with_transaction_options in_pool
  with_transaction_options-code s e h k =
      rw (run_tx-failed s.log (driver.begin_tx options s.world) h k)
        (rolled-codes e (driver.rollback (fn (driver.begin_tx options s.world).1).1).0)
