-- ===== src/Taskqueue/Lifecycle/Tests.antt =====
-- A run of the life of a task queue, and a concrete use of what is proved of it.
use gframework.Base.{◌+◌, ◌≤◌, ◌≡◌, refl, true, false, ◌⊎◌, arith}
use gframework.Taskqueue.Lifecycle.{
  gone, Life, fresh, end_fetcher, start, fetch, send, fetcher_done, worker_cancelled, stop,
  stop_returned, Reach, here, next,
}
use gframework.Taskqueue.Lifecycle.Conservation.{held, tasks_are_conserved}

-- One worker was told to stop before it received the task in the channel, which stays there.
abbrev stranded : Life
stranded = record {
  running = false;
  cancelled = true;
  closed = true;
  stopping = false;
  fetcher = gone;
  idle = 0;
  busy = 0;
  queued = 1;
  starts = 1;
  taken = 1;
  given_back = 0;
  lost = 0;
  processed = 0;
  panicked = false;
  overlapped = false;
}

Reach-stranded : Reach 1 1 fresh stranded
unfolding fresh end_fetcher
Reach-stranded =
    next
      (next
        (next
          (next
            (next (next (next here refl (start refl refl)) refl (fetch refl)) refl
              (send refl refl (omega arith)))
            refl (stop refl))
          refl (fetcher_done refl refl))
        refl (worker_cancelled 0 refl refl))
      refl (stop_returned refl refl refl refl)

tasks_are_conserved_example :
    (stranded.taken
      ≡ stranded.given_back
        + stranded.lost
        + held stranded.fetcher
        + stranded.queued
        + stranded.busy
        + stranded.processed)
    × (stranded.queued ≤ 1)
    × ((stranded.panicked ≡ false) ⊎ (2 ≤ stranded.starts))
tasks_are_conserved_example = tasks_are_conserved {n = 1} Reach-stranded refl
