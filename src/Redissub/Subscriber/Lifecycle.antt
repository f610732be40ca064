-- ===== src/Redissub/Subscriber/Lifecycle.antt =====
-- redissub/subscriber.go: `Start` and `Stop` of one subscriber, called from any goroutines.
-- A step is one access to the shared flags and channels. Closing a channel that is closed panics,
-- which ends the program. Messages are handled between the steps, and `Stop` waits for nothing: its
-- last select only delays its return.
pub mod Safety
mod Tests
use gframework.Base.{ℕ, zero, suc, ◌+◌, ◌≤◌, ◌<◌, ◌≡◌, Bool, true, false, if◌then◌else◌}

-- `shutdown` and `stopped` say whether `shutdownSignal` and `stoppedSignal` are closed. Calls of
-- `Start` are counted where they stand: before `Subscribe` returns, in the loop, or returned; calls of
-- `Stop` between the swap of `running` and the close of `shutdownSignal`, or past it.
pub record Life : Type 0 where
  pub running : Bool
  pub healthy : Bool
  pub shutdown : Bool
  pub stopped : Bool
  pub subscribing : ℕ
  pub looping : ℕ
  pub returned : ℕ
  pub stopping : ℕ
  pub closed : ℕ
  pub panicked : Bool

pub fresh : Life
fresh = record {
  running = false;
  healthy = false;
  shutdown = false;
  stopped = false;
  subscribing = 0;
  looping = 0;
  returned = 0;
  stopping = 0;
  closed = 0;
  panicked = false;
}

-- The deferred `close(s.stoppedSignal)` with which `Start` returns.
pub return_start : Life → Life
return_start s =
    if s.stopped
    then record s { returned = s.returned + 1; panicked = true }
    else record s { returned = s.returned + 1; stopped = true }

-- `close(s.shutdownSignal)` in `Stop`.
pub close_shutdown : Life → Life
close_shutdown s =
    if s.shutdown
    then record s { closed = s.closed + 1; panicked = true }
    else record s { closed = s.closed + 1; shutdown = true }

pub data Step (s : Life) : Life → Type 0 where
  start : s.running ≡ false → Step s (record s { running = true; subscribing = suc s.subscribing })
  start_refused : s.running ≡ true → Step s s
  subscribe_failed :
      (n : ℕ) → s.subscribing ≡ suc n → Step s (return_start (record s { subscribing = n }))
  subscribed :
      (n : ℕ)
      → s.subscribing ≡ suc n
      → Step s (record s { subscribing = n; looping = suc s.looping; healthy = true })
  context_done :
      (n : ℕ)
      → s.looping ≡ suc n
      → Step s (return_start (record s { looping = n; healthy = false }))
  shutdown_seen :
      (n : ℕ)
      → s.looping ≡ suc n
      → s.shutdown ≡ true
      → Step s (return_start (record s { looping = n; healthy = false }))
  stop : s.running ≡ true → Step s (record s { running = false; stopping = suc s.stopping })
  stop_refused : s.running ≡ false → Step s s
  stop_close :
      (n : ℕ)
      → s.stopping ≡ suc n
      → Step s (close_shutdown (record s { stopping = n; healthy = false }))

-- A panic ends the program.
pub data Reach (s : Life) : Life → Type 0 where
  here : Reach s s
  next : {t u : Life} → Reach s t → t.panicked ≡ false → Step t u → Reach s u
