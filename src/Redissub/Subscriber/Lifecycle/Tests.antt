-- ===== src/Redissub/Subscriber/Lifecycle/Tests.antt =====
-- A subscriber that is started, stopped, and started again.
use gframework.Base.{◌≤◌, ◌≡◌, refl, true, false, arith, ◌⊎◌}
use gframework.Redissub.Subscriber.Lifecycle.{
  Life, fresh, return_start, close_shutdown, start, subscribed, shutdown_seen, stop, stop_close,
  Reach, here, next,
}
use gframework.Redissub.Subscriber.Lifecycle.Safety.{one_life_is_safe}

abbrev ended : Life
ended = record {
  running = false;
  healthy = false;
  shutdown = true;
  stopped = true;
  subscribing = 0;
  looping = 0;
  returned = 1;
  stopping = 0;
  closed = 1;
  panicked = false;
}

one_cycle : Reach fresh ended
unfolding fresh return_start close_shutdown
one_cycle =
    next
      (next (next (next (next here refl (start refl)) refl (subscribed 0 refl)) refl (stop refl))
        refl (stop_close 0 refl))
      refl (shutdown_seen 0 refl refl)

-- The second `Start` panics when it returns.
restart_panics : Reach fresh (record ended { running = true; returned = 2; panicked = true })
unfolding return_start
restart_panics =
    next (next (next one_cycle refl (start refl)) refl (subscribed 0 refl)) refl
      (shutdown_seen 0 refl refl)

one_life_is_safe_example :
    (ended.panicked ≡ false) × ((ended.healthy ≡ false) ⊎ (1 ≤ ended.looping))
one_life_is_safe_example = one_life_is_safe one_cycle (omega arith)
