-- ===== src/Postgres/Transaction/Once.antt =====
-- postgres/transaction.go and postgres/retry.go: every transaction that is begun is ended, and nil is
-- returned for one commit.
use gframework.Base.{ℕ, ◌+◌, ◌≡◌, Option, none, some, List, ◌∷◌, ℤ, arith}
use gframework.Errors.{GoError, Outcome, returned, panicked, successes}
use gframework.Postgres.Retry.{RetryConfig}
use gframework.Postgres.Retry.Effects.{with_retry-Adds}
use gframework.Postgres.Transaction.{
  TxOptions, DbPool, nil_pool, pgx_pool, other_pool, Logged, Driver, end_tx, run_tx, in_pool,
  with_transaction_options, with_transaction, with_retry_tx, idle, rolled, commit_error, TxEvent,
  begun,
}
use gframework.Postgres.Transaction.Log.{begins, ends, commits}

-- From a log to a later one: what was begun since was ended, and `n` commits were added.
abbrev Adds : List TxEvent → List TxEvent → ℕ → Type 0
Adds old new n = (begins new + ends old ≡ ends new + begins old) × (commits new ≡ commits old + n)

module _ {W : Type 0} (driver : Driver W) (pool : DbPool) where
  end_tx-Adds :
      (o : Outcome) (options : TxOptions) (log : List TxEvent) (w : W)
      → let (r, t) = end_tx driver pool o (record { world = w; log = begun options ∷ log }) in
        Adds log t.log (successes r)
  unfolding end_tx rolled commit_error
  end_tx-Adds (panicked v) options log w = (omega arith, omega arith)
  end_tx-Adds (returned (some e)) options log w = ground arith
  end_tx-Adds (returned none) options log w = ground arith

  run_tx-Adds :
      (options : TxOptions) (fn : W → Outcome × W) (log : List TxEvent) (p : Option GoError × W)
      → let (r, t) = run_tx driver pool options fn log p in Adds log t.log (successes r)
  unfolding run_tx
  run_tx-Adds options fn log (some e, w) = (omega arith, omega arith)
  run_tx-Adds options fn log (none, w) = end_tx-Adds (fn w).0 options log (fn w).1

  in_pool-Adds :
      (q : DbPool) (options : TxOptions) (fn : W → Outcome × W) (s : Logged W)
      → let (r, t) = in_pool driver pool q options fn s in Adds s.log t.log (successes r)
  unfolding in_pool
  in_pool-Adds nil_pool options fn s = (omega arith, omega arith)
  in_pool-Adds other_pool options fn s = (omega arith, omega arith)
  in_pool-Adds pgx_pool options fn s =
      run_tx-Adds options fn s.log (driver.begin_tx options s.world)

  -- Whatever the pool, the options and the body, and however the calls end, `WithTransactionOptions`
  -- ends every transaction that it begins, and the commits that the driver reports as done grow by
  -- one if it returns nil and stay as they are if it returns an error or panics.
  pub with_transaction_options-Adds :
      (options : TxOptions) (fn : W → Outcome × W) (s : Logged W)
      → let (r, t) = with_transaction_options driver pool options fn s in
        (begins t.log + ends s.log ≡ ends t.log + begins s.log)
        × (commits t.log ≡ commits s.log + successes r)
  unfolding with_transaction_options
  with_transaction_options-Adds options fn s = in_pool-Adds pool options fn s

  -- `WithRetryTx` ends every transaction that it begins, in however many attempts, and the commits
  -- that the driver reports as done grow by one if it returns nil and stay as they are if not.
  pub with_retry_tx-Adds :
      (cfg : RetryConfig) (wait : ℤ → W → Option GoError × W) (fn : W → Outcome × W) (s : Logged W)
      → let r = with_retry_tx driver pool cfg wait fn s in
        (begins r.world.log + ends s.log ≡ ends r.world.log + begins s.log)
        × (commits r.world.log ≡ commits s.log + successes r.result)
  unfolding with_retry_tx with_transaction
  with_retry_tx-Adds cfg wait fn =
      with_retry-Adds cfg (with_transaction driver pool fn) (idle driver pool wait)
        (λ s t n. Adds s.log t.log n) (λ s. (omega arith, omega arith))
        (λ s t u n h k. (omega arith, omega arith)) (λ d s. (omega arith, omega arith))
        (λ s. with_transaction_options-Adds _ fn s)
