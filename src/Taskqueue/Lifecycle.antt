-- ===== src/Taskqueue/Lifecycle.antt =====
-- taskqueue/taskqueue.go: `Start`, `Stop`, the fetcher and the workers as steps, with counts of the
-- tasks. What a fetch, an execution and a return do in Redis stands in the module above; here a fetch
-- that fails before it has taken a task is no step. `Start` looks at the running flag only, which `Stop`
-- clears before it waits: a `Start` that overlaps a waiting `Stop`, and a `Stop` that comes while a
-- `Start` is at work, are steps of their own, after which the queue is marked and may be in any state.
pub mod Conservation
mod Tests
use gframework.Base.{ℕ, zero, suc, ◌+◌, ◌≤◌, ◌≡◌, Bool, true, false, ◌||◌, if◌then◌else◌}

-- Between two tasks, with a task to send, or no fetcher.
pub data Fetcher : Type 0 where
  polling holding gone : Fetcher

-- `closed` is the channel of tasks, which is made once, in `New`; `queued` are the tasks in it.
-- Workers wait for a task or process one. Starts are counted, and so are tasks that were taken from the
-- list in Redis, given back to it, lost because the LPush of `returnTask` failed, and processed.
-- `overlapped` says that some call of `Start` overlapped one of `Stop`.
pub record Life : Type 0 where
  pub running : Bool
  pub cancelled : Bool
  pub closed : Bool
  pub stopping : Bool
  pub fetcher : Fetcher
  pub idle : ℕ
  pub busy : ℕ
  pub queued : ℕ
  pub starts : ℕ
  pub taken : ℕ
  pub given_back : ℕ
  pub lost : ℕ
  pub processed : ℕ
  pub panicked : Bool
  pub overlapped : Bool

pub fresh : Life
fresh = record {
  running = false;
  cancelled = false;
  closed = false;
  stopping = false;
  fetcher = gone;
  idle = 0;
  busy = 0;
  queued = 0;
  starts = 0;
  taken = 0;
  given_back = 0;
  lost = 0;
  processed = 0;
  panicked = false;
  overlapped = false;
}

-- The deferred `close(q.taskChan)`.
pub end_fetcher : Life → Life
end_fetcher s = record s { fetcher = gone; closed = true; panicked = s.panicked || s.closed }

-- For `n` workers and a channel that holds `b` tasks.
pub data Step (n b : ℕ) (s : Life) : Life → Type 0 where
  start :
      s.running ≡ false
      → s.stopping ≡ false
      → Step n b s (record s {
        running = true;
        cancelled = false;
        fetcher = polling;
        idle = s.idle + n;
        starts = suc s.starts;
      })
  start_overlapping :
      (t : Life) → s.running ≡ false → s.stopping ≡ true → t.overlapped ≡ true → Step n b s t
  -- `Stop` comes before a `Start` has launched its goroutines.
  stop_overlapping : (t : Life) → s.running ≡ true → t.overlapped ≡ true → Step n b s t
  start_refused : s.running ≡ true → Step n b s s
  fetch : s.fetcher ≡ polling → Step n b s (record s { fetcher = holding; taken = suc s.taken })
  -- A task is taken, its payload or its place in the processing set fails, and it is returned.
  fetch_returned :
      s.fetcher ≡ polling
      → Step n b s (record s { taken = suc s.taken; given_back = suc s.given_back })
  -- The same, and the return fails too.
  fetch_lost :
      s.fetcher ≡ polling → Step n b s (record s { taken = suc s.taken; lost = suc s.lost })
  send :
      s.fetcher ≡ holding
      → s.closed ≡ false
      → suc s.queued ≤ b
      → Step n b s (record s { fetcher = polling; queued = suc s.queued })
  send_closed : s.fetcher ≡ holding → s.closed ≡ true → Step n b s (record s { panicked = true })
  give_back :
      s.fetcher ≡ holding
      → s.cancelled ≡ true
      → Step n b s (end_fetcher (record s { given_back = suc s.given_back }))
  give_back_failed :
      s.fetcher ≡ holding
      → s.cancelled ≡ true
      → Step n b s (end_fetcher (record s { lost = suc s.lost }))
  fetcher_done : s.fetcher ≡ polling → s.cancelled ≡ true → Step n b s (end_fetcher s)
  receive :
      (k q : ℕ)
      → s.idle ≡ suc k
      → s.queued ≡ suc q
      → Step n b s (record s { idle = k; queued = q; busy = suc s.busy })
  process :
      (k : ℕ)
      → s.busy ≡ suc k
      → Step n b s (record s { busy = k; idle = suc s.idle; processed = suc s.processed })
  worker_cancelled :
      (k : ℕ) → s.idle ≡ suc k → s.cancelled ≡ true → Step n b s (record s { idle = k })
  worker_closed :
      (k : ℕ) → s.idle ≡ suc k → s.closed ≡ true → s.queued ≡ 0 → Step n b s (record s { idle = k })
  context_done : s.running ≡ true → Step n b s (record s { cancelled = true })
  stop :
      s.running ≡ true
      → Step n b s (record s { running = false; cancelled = true; stopping = true })
  stop_refused : s.running ≡ false → Step n b s s
  stop_returned :
      s.stopping ≡ true
      → s.fetcher ≡ gone
      → s.idle ≡ 0
      → s.busy ≡ 0
      → Step n b s (record s { stopping = false })

-- A panic ends the program.
pub data Reach (n b : ℕ) (s : Life) : Life → Type 0 where
  here : Reach n b s s
  next : {t u : Life} → Reach n b s t → t.panicked ≡ false → Step n b t u → Reach n b s u
