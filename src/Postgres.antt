-- ===== src/Postgres.antt =====
-- Package postgres: retries, transactions, health checks.
pub mod Retry
pub mod Transaction
pub mod Health
pub mod Migration
pub mod Pool
