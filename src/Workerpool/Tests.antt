-- ===== src/Workerpool/Tests.antt =====
-- Runs of workerpool/workerpool.go, and concrete uses of what is proved of it.
use gframework.Base.{◌+◌, ◌≤◌, ◌≡◌, refl, true, false, ◌⊎◌, some, List, [], ◌∷◌, pos, negsuc}
use gframework.Errors.{sentinel}
use gframework.Workerpool.{
  with_worker_count, with_tick_interval, with_execution_timeout, with_name, default_pool, new,
  deadline, execute_with_timeout,
}
use gframework.Workerpool.Config.{
  Setting, worker_count, tick_interval, execution_timeout, name, options_of,
}
use gframework.Workerpool.Lifecycle.{
  waiting, gone, Pool, fresh, start, tick, hand_over, stop, Reach, here, next,
}
use gframework.Workerpool.Lifecycle.Safety.{pool_is_sound}
use gframework.Workerpool.Lifecycle.Stopping.{OwnSteps, stop_returns}

abbrev settings : List Setting
settings =
    worker_count (pos 3) ∷ tick_interval (negsuc 0) ∷ execution_timeout (pos 5) ∷ name "" ∷ []

runs :
    (new (options_of settings) ≡ record default_pool { worker_count = pos 3; exec_timeout = pos 5 })
    × (execute_with_timeout
          (λ d w. (some (sentinel "ErrBoom"), d ∷ w))
          (new (options_of settings))
          []
        ≡ some (pos 5) ∷ [])
unfolding new with_worker_count with_tick_interval with_execution_timeout with_name
    execute_with_timeout deadline
runs = (refl, refl)

-- Two workers, one of them at work when `Stop` is called.
abbrev at_work : Pool
at_work = record {
  running = true;
  cancelled = false;
  closed = false;
  stopping = false;
  dispatcher = waiting;
  idle = 1;
  busy = 1;
  ticks = 1;
  executions = 1;
  panicked = false;
  overlapped = false;
}

abbrev being_stopped : Pool
being_stopped = record at_work { running = false; cancelled = true; stopping = true }

busy_run : Reach 2 fresh being_stopped
unfolding fresh
busy_run =
    next (next (next (next here (start refl refl)) (tick refl)) (hand_over 1 refl refl)) (stop refl)

pool_is_sound_example :
    (being_stopped.idle + being_stopped.busy ≤ 2)
    × (being_stopped.executions ≤ being_stopped.ticks)
    × (being_stopped.panicked ≡ false)
    × ((being_stopped.running ≡ true)
        ⊎ ((being_stopped.stopping ≡ true)
            ⊎ ((being_stopped.dispatcher ≡ gone)
                × (being_stopped.idle ≡ 0)
                × (being_stopped.busy ≡ 0))))
pool_is_sound_example = pool_is_sound busy_run refl

stop_returns_example :
    (t : Pool) × OwnSteps 2 being_stopped t
    × (t.stopping ≡ false)
    × (t.running ≡ false)
    × (t.executions ≡ being_stopped.executions)
stop_returns_example = stop_returns busy_run refl refl
