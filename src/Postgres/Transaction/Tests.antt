-- ===== src/Postgres/Transaction/Tests.antt =====
-- Runs of postgres/transaction.go on a driver that counts its calls.
use gframework.Base.{
  or_else, ℕ, ◌+◌, ◌≡◌, refl, true, Option, none, some, [], ◌==◌, ℤ, if◌then◌else◌,
}
use gframework.Errors.{
  GoError, sentinel, pg_error, Outcome, returned, is, as_pg, code_of, successes,
}
use gframework.Postgres.Retry.{default_retry_config}
use gframework.Postgres.Transaction.{
  TxOptions, IsoLevel, AccessMode, pgx_pool, Logged, Driver, with_transaction_options,
  with_transaction, with_retry_tx, with_retry_tx_default,
}
use gframework.Postgres.Transaction.Log.{begins, ends, commits}
use gframework.Postgres.Transaction.Once.{with_transaction_options-Adds, with_retry_tx-Adds}
use gframework.Postgres.Transaction.Codes.{with_transaction_options-code}

-- The state counts the bodies that were run; the rollback finds the connection gone.
abbrev broken : Driver ℕ
broken = record {
  begin_tx = λ o w. (none, w);
  commit = λ w. (none, w);
  rollback = λ w. (some (pg_error "08006"), w);
}

-- Fails twice with a serialization failure, then succeeds.
abbrev third_time : ℕ → Outcome × ℕ
third_time w = (if w == 2 then returned none else returned (some (pg_error "40001")), w + 1)

abbrev plain_options : TxOptions
plain_options = record { iso_level = IsoLevel.serializable; access_mode = AccessMode.read_write }

abbrev start : Logged ℕ
start = record { world = 0; log = [] }

abbrev fires : ℤ → ℕ → Option GoError × ℕ
fires d w = (none, w)

third_time_commit :
    let r = with_retry_tx_default broken pgx_pool fires third_time start in
    (r.result ≡ returned none) × (commits r.world.log ≡ 1) × (begins r.world.log ≡ 3)
unfolding with_retry_tx_default with_retry_tx with_transaction
third_time_commit = (refl, refl, refl)

with_transaction_options-Adds_example :
    let (r, t) = with_transaction_options broken pgx_pool plain_options third_time start in
    (begins t.log + 0 ≡ ends t.log + 0) × (commits t.log ≡ 0 + successes r)
with_transaction_options-Adds_example =
    with_transaction_options-Adds broken pgx_pool plain_options third_time start

with_retry_tx-Adds_example :
    let r = with_retry_tx broken pgx_pool default_retry_config fires third_time start in
    (begins r.world.log + 0 ≡ ends r.world.log + 0) × (commits r.world.log ≡ 0 + successes r.result)
with_retry_tx-Adds_example =
    with_retry_tx-Adds broken pgx_pool default_retry_config fires third_time start

abbrev refuses : ℕ → Outcome × ℕ
refuses w = (returned (some (sentinel "ErrInsufficientFunds")), w)

with_transaction_options-code_example :
    (err : GoError) × ((with_transaction_options broken pgx_pool plain_options refuses start).0
      ≡ returned (some err))
    × (is err "ErrTxRolledBack" ≡ true)
    × (as_pg err
        ≡ or_else (as_pg (sentinel "ErrInsufficientFunds")) (code_of (some (pg_error "08006"))))
with_transaction_options-code_example =
    with_transaction_options-code broken plain_options refuses start
      (sentinel "ErrInsufficientFunds") refl refl

-- So an error of the body that is not retryable is retried if the rollback fails with a lost
-- connection.
refused_is_retried :
    let r = with_retry_tx_default broken pgx_pool fires refuses start in begins r.world.log ≡ 4
unfolding with_retry_tx_default with_retry_tx with_transaction
refused_is_retried = refl
