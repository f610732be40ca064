-- ===== src/Taskqueue/Lifecycle/Conservation.antt =====
-- taskqueue/taskqueue.go: no task is lost or doubled between the fetcher and the workers.
use gframework.Base.{ℕ, ◌+◌, ◌≤◌, ◌≡◌, true, false, ◌⊎◌, arith}
use gframework.Taskqueue.Lifecycle.{
  Fetcher, polling, holding, gone, Life, fresh, end_fetcher, Step, start, start_overlapping,
  stop_overlapping, start_refused, fetch, fetch_returned, fetch_lost, give_back_failed, send,
  send_closed, give_back, fetcher_done, receive, process, worker_cancelled, worker_closed,
  context_done, stop, stop_refused, stop_returned, Reach, here, next,
}

-- The tasks in the fetcher's hands.
abbrev pub held : Fetcher → ℕ
held polling = 0
held holding = 1
held gone = 0

record IsSound (b : ℕ) (s : Life) : Type 0 where
  conserved : s.taken ≡ s.given_back + s.lost + held s.fetcher + s.queued + s.busy + s.processed
  fits : s.queued ≤ b
  unused : (1 ≤ s.starts) ⊎ ((s.closed ≡ false) × (s.fetcher ≡ gone))
  closed_by : (s.closed ≡ false) ⊎ ((s.fetcher ≡ gone) ⊎ (2 ≤ s.starts))
  ended : (s.running ≡ true) ⊎ ((s.stopping ≡ true) ⊎ (s.fetcher ≡ gone))
  safe : (s.panicked ≡ false) ⊎ (2 ≤ s.starts)

-- A queue that was marked stays so.
overlapped_before :
    {n b : ℕ} {s t : Life} → Step n b s t → t.overlapped ≡ false → s.overlapped ≡ false
unfolding end_fetcher
overlapped_before (start_overlapping t h k m) o = absurd (cc (m, o))
overlapped_before (stop_overlapping t h m) o = absurd (cc (m, o))
overlapped_before (start h k) o = o
overlapped_before (start_refused h) o = o
overlapped_before (fetch h) o = o
overlapped_before (send h k l) o = o
overlapped_before (send_closed h k) o = o
overlapped_before (give_back h k) o = o
overlapped_before (fetcher_done h k) o = o
overlapped_before (receive k q h l) o = o
overlapped_before (process k h) o = o
overlapped_before (worker_cancelled k h l) o = o
overlapped_before (worker_closed k h l m) o = o
overlapped_before (context_done h) o = o
overlapped_before (stop h) o = o
overlapped_before (stop_refused h) o = o
overlapped_before (stop_returned h k l m) o = o
overlapped_before (fetch_returned h) o = o
overlapped_before (fetch_lost h) o = o
overlapped_before (give_back_failed h k) o = o

Step-IsSound :
    {n b : ℕ} {s t : Life}
    → s.panicked ≡ false
    → t.overlapped ≡ false
    → Step n b s t
    → IsSound b s
    → IsSound b t
unfolding end_fetcher
Step-IsSound p o (start h k) i = ground arith
Step-IsSound p o (start_overlapping t h k m) i = absurd (cc (m, o))
Step-IsSound p o (stop_overlapping t h m) i = absurd (cc (m, o))
Step-IsSound p o (start_refused h) i = i
Step-IsSound p o (fetch_returned h) i = ground arith
Step-IsSound p o (fetch_lost h) i = ground arith
Step-IsSound p o (give_back_failed h k) i = ground arith
Step-IsSound p o (fetch h) i = ground arith
Step-IsSound p o (send h k l) i = ground arith
Step-IsSound p o (send_closed h k) i = ground arith
Step-IsSound p o (give_back h k) i = ground arith
Step-IsSound p o (fetcher_done h k) i = ground arith
Step-IsSound p o (receive k q h l) i = ground arith
Step-IsSound p o (process k h) i = ground arith
Step-IsSound p o (worker_cancelled k h l) i = ground arith
Step-IsSound p o (worker_closed k h l m) i = ground arith
Step-IsSound p o (context_done h) i = ground arith
Step-IsSound p o (stop h) i = ground arith
Step-IsSound p o (stop_refused h) i = i
Step-IsSound p o (stop_returned h k l m) i = ground arith

fresh-IsSound : {b : ℕ} → IsSound b fresh
unfolding fresh
fresh-IsSound = ground arith

Reach-IsSound : {n b : ℕ} {s : Life} → Reach n b fresh s → s.overlapped ≡ false → IsSound b s
Reach-IsSound here o = fresh-IsSound
Reach-IsSound (next r p st) o = Step-IsSound p o st (Reach-IsSound r (overlapped_before st o))

-- In every state that is reached without a call of `Start` that overlaps one of `Stop`, each task
-- that was taken from the list is exactly one of: given back, lost in a return that failed, in the
-- fetcher's hands, in the channel, being processed, or processed; the channel holds no more tasks than it
-- can; and nothing has panicked unless the queue was started a second time.
pub tasks_are_conserved :
    {n b : ℕ} {s : Life}
    → Reach n b fresh s
    → s.overlapped ≡ false
    → (s.taken ≡ s.given_back + s.lost + held s.fetcher + s.queued + s.busy + s.processed)
      × (s.queued ≤ b)
      × ((s.panicked ≡ false) ⊎ (2 ≤ s.starts))
tasks_are_conserved r o = let i = Reach-IsSound r o in (i.conserved, i.fits, i.safe)
