-- ===== src/Workerpool/Lifecycle.antt =====
-- workerpool/workerpool.go: `Start`, `Stop`, the dispatcher and the workers as steps. The channel has no
-- buffer, so a send and the receive that takes it are one step. `Start` looks at the running flag only,
-- which `Stop` clears before it waits: a `Start` that overlaps a waiting `Stop`, and a `Stop` that comes
-- while a `Start` is at work, are steps of their own, after which the pool is marked and may be in any
-- state.
pub mod Safety
pub mod Stopping
use gframework.Base.{ℕ, zero, suc, ◌+◌, ◌≤◌, ◌≡◌, Bool, true, false, ◌||◌, if◌then◌else◌}

-- Waiting for a tick, trying to send a job, or no dispatcher.
pub data Dispatcher : Type 0 where
  waiting offering gone : Dispatcher

-- `cancelled` is the workers' context, `closed` their channel, `stopping` a call of `Stop` that waits
-- for the goroutines; workers wait for a job or execute one; ticks and executions are counted.
-- `overlapped` says that some call of `Start` overlapped one of `Stop`.
pub record Pool : Type 0 where
  pub running : Bool
  pub cancelled : Bool
  pub closed : Bool
  pub stopping : Bool
  pub dispatcher : Dispatcher
  pub idle : ℕ
  pub busy : ℕ
  pub ticks : ℕ
  pub executions : ℕ
  pub panicked : Bool
  pub overlapped : Bool

unfoldable pub fresh : Pool
fresh = record {
  running = false;
  cancelled = false;
  closed = false;
  stopping = false;
  dispatcher = gone;
  idle = 0;
  busy = 0;
  ticks = 0;
  executions = 0;
  panicked = false;
  overlapped = false;
}

-- `close(pool.jobChan)`, the last thing that a dispatcher does.
pub end_dispatcher : Pool → Pool
end_dispatcher s = record s { dispatcher = gone; closed = true; panicked = s.closed }

-- For a pool with `n` workers.
pub data Step (n : ℕ) (s : Pool) : Pool → Type 0 where
  start :
      s.running ≡ false
      → s.stopping ≡ false
      → Step n s (record s {
        running = true;
        cancelled = false;
        closed = false;
        dispatcher = waiting;
        idle = s.idle + n;
      })
  start_overlapping :
      (t : Pool) → s.running ≡ false → s.stopping ≡ true → t.overlapped ≡ true → Step n s t
  -- `Stop` comes before a `Start` has launched its goroutines.
  stop_overlapping : (t : Pool) → s.running ≡ true → t.overlapped ≡ true → Step n s t
  start_refused : s.running ≡ true → Step n s s
  tick : s.dispatcher ≡ waiting → Step n s (record s { dispatcher = offering; ticks = suc s.ticks })
  hand_over :
      (k : ℕ)
      → s.dispatcher ≡ offering
      → s.idle ≡ suc k
      → Step n s (record s {
        dispatcher = waiting;
        idle = k;
        busy = suc s.busy;
        executions = suc s.executions;
      })
  dispatcher_done : s.dispatcher ≡ waiting → s.cancelled ≡ true → Step n s (end_dispatcher s)
  offer_given_up : s.dispatcher ≡ offering → s.cancelled ≡ true → Step n s (end_dispatcher s)
  executed : (k : ℕ) → s.busy ≡ suc k → Step n s (record s { busy = k; idle = suc s.idle })
  worker_cancelled :
      (k : ℕ) → s.idle ≡ suc k → s.cancelled ≡ true → Step n s (record s { idle = k })
  worker_closed : (k : ℕ) → s.idle ≡ suc k → s.closed ≡ true → Step n s (record s { idle = k })
  context_done : s.running ≡ true → Step n s (record s { cancelled = true })
  stop :
      s.running ≡ true → Step n s (record s { running = false; cancelled = true; stopping = true })
  stop_refused : s.running ≡ false → Step n s s
  stop_returned :
      s.stopping ≡ true
      → s.dispatcher ≡ gone
      → s.idle ≡ 0
      → s.busy ≡ 0
      → Step n s (record s { stopping = false })

pub data Reach (n : ℕ) (s : Pool) : Pool → Type 0 where
  here : Reach n s s
  next : {t u : Pool} → Reach n s t → Step n t u → Reach n s u
