-- ===== src/Workerpool/Config.antt =====
-- workerpool/workerpool.go: the values that a pool can have.
use gframework.Base.{String, ◌≢◌, List, [], ◌∷◌, eq_iff, ℤ, pos, ◌≤ℤ◌, ◌<ℤ◌, arith}
use gframework.Workerpool.{
  WorkerPool, PoolOption, with_worker_count, with_tick_interval, with_execution_timeout, with_name,
  apply_options, default_pool, new,
}

-- The options of the package.
pub data Setting : Type 0 where
  worker_count tick_interval execution_timeout : ℤ → Setting
  name : String → Setting

abbrev pub option_of : Setting → PoolOption
option_of (worker_count n) = with_worker_count n
option_of (tick_interval d) = with_tick_interval d
option_of (execution_timeout t) = with_execution_timeout t
option_of (name s) = with_name s

abbrev pub options_of : List Setting → List PoolOption
options_of [] = []
options_of (s ∷ ss) = option_of s ∷ options_of ss

-- There is a worker, a ticker can be made (it panics for an interval that is not positive), and a
-- deadline is in the future.
abbrev pub IsConfigured : WorkerPool → Type 0
IsConfigured pool =
    (pos 0 <ℤ pool.worker_count)
    × (pos 0 <ℤ pool.tick_interval)
    × (pos 0 ≤ℤ pool.exec_timeout)
    × (pool.name ≢ "")

option-IsConfigured :
    (s : Setting) (pool : WorkerPool) → IsConfigured pool → IsConfigured (option_of s pool)
unfolding with_worker_count with_tick_interval with_execution_timeout with_name
option-IsConfigured (worker_count n) pool h = ground arith
option-IsConfigured (tick_interval d) pool h = ground arith
option-IsConfigured (execution_timeout t) pool h = ground arith
option-IsConfigured (name s) pool h = ground (arith, eq_iff s "")

options-IsConfigured :
    (ss : List Setting) (pool : WorkerPool)
    → IsConfigured pool
    → IsConfigured (apply_options (options_of ss) pool)
options-IsConfigured [] pool h = h
options-IsConfigured (s ∷ ss) pool h = options-IsConfigured ss _ (option-IsConfigured s pool h)

-- Whatever values its options are given, a pool has at least one worker, a positive tick interval, a
-- name, and no negative execution timeout.
pub pool_new-IsConfigured : (ss : List Setting) → IsConfigured (new (options_of ss))
unfolding new
pool_new-IsConfigured ss =
    options-IsConfigured ss default_pool
      (omega arith, omega arith, omega arith, ground (arith, eq_iff "worker-pool" ""))
