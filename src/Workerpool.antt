-- ===== src/Workerpool.antt =====
-- workerpool/workerpool.go: a pool of workers and its options.
pub mod Config
pub mod Lifecycle
mod Tests
use gframework.Base.{
  ℕ, String, ◌≡◌, Bool, true, false, Option, none, some, List, [], ◌∷◌, str_eq, if◌then◌else◌, ℤ,
  pos, ltb_ℤ,
}
use gframework.Errors.{GoError}

pub record WorkerPool : Type 0 where
  pub name : String
  pub worker_count : ℤ
  pub tick_interval : ℤ
  pub exec_timeout : ℤ

abbrev pub PoolOption : Type 0
PoolOption = WorkerPool → WorkerPool

unfoldable pub with_worker_count : ℤ → PoolOption
with_worker_count count pool =
    if ltb_ℤ (pos 0) count then record pool { worker_count = count } else pool

unfoldable pub with_tick_interval : ℤ → PoolOption
with_tick_interval duration pool =
    if ltb_ℤ (pos 0) duration then record pool { tick_interval = duration } else pool

unfoldable pub with_execution_timeout : ℤ → PoolOption
with_execution_timeout timeout pool =
    if ltb_ℤ (pos 0) timeout then record pool { exec_timeout = timeout } else pool

unfoldable pub with_name : String → PoolOption
with_name name pool = if str_eq name "" then pool else record pool { name = name }

abbrev pub apply_options : List PoolOption → WorkerPool → WorkerPool
apply_options [] pool = pool
apply_options (o ∷ os) pool = apply_options os (o pool)

abbrev pub default_pool : WorkerPool
default_pool = record {
  name = "worker-pool";
  worker_count = pos 1;
  tick_interval = pos 1_000_000_000;
  exec_timeout = pos 0;
}

unfoldable pub new : List PoolOption → WorkerPool
new opts = apply_options opts default_pool

-- The context of an execution: with a deadline, or only cancellable.
pub deadline : WorkerPool → Option ℤ
deadline pool = if ltb_ℤ (pos 0) pool.exec_timeout then some pool.exec_timeout else none

-- The error of the executor is only logged.
pub execute_with_timeout :
    {W : Type 0} (execute : Option ℤ → W → Option GoError × W) (pool : WorkerPool) → W → W
unfolding deadline
execute_with_timeout execute pool w = (execute (deadline pool) w).1
