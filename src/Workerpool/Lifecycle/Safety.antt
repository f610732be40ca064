-- ===== src/Workerpool/Lifecycle/Safety.antt =====
-- workerpool/workerpool.go: what holds at every moment of a pool's life.
use gframework.Base.{ℕ, ◌+◌, ◌≤◌, ◌≡◌, true, false, ◌⊎◌, arith}
use gframework.Workerpool.Lifecycle.{
  Dispatcher, waiting, offering, gone, Pool, fresh, end_dispatcher, Step, start, start_overlapping,
  stop_overlapping, start_refused, tick, hand_over, dispatcher_done, offer_given_up, executed,
  worker_cancelled, worker_closed, context_done, stop, stop_refused, stop_returned, Reach, here,
  next,
}

-- 1 for a dispatcher that has taken a tick and not sent its job.
abbrev pub pending : Dispatcher → ℕ
pending waiting = 0
pending offering = 1
pending gone = 0

pub record IsSound (n : ℕ) (s : Pool) : Type 0 where
  pub few : s.idle + s.busy ≤ n
  pub one_per_tick : s.executions + pending s.dispatcher ≤ s.ticks
  pub closed_gone : s.closed ≡ true → s.dispatcher ≡ gone
  pub closed_cancelled : s.closed ≡ true → s.cancelled ≡ true
  pub calm : s.panicked ≡ false
  pub one_call : s.stopping ≡ true → (s.running ≡ false) × (s.cancelled ≡ true)
  pub quiet :
      s.running ≡ false → s.stopping ≡ false → (s.dispatcher ≡ gone) × (s.idle ≡ 0) × (s.busy ≡ 0)

-- A pool that was marked stays so.
overlapped_before : {n : ℕ} {s t : Pool} → Step n s t → t.overlapped ≡ false → s.overlapped ≡ false
unfolding end_dispatcher
overlapped_before (start h k) o = o
overlapped_before (start_overlapping t h k m) o = absurd (cc (m, o))
overlapped_before (stop_overlapping t h m) o = absurd (cc (m, o))
overlapped_before (start_refused h) o = o
overlapped_before (tick h) o = o
overlapped_before (hand_over k h l) o = o
overlapped_before (dispatcher_done h k) o = o
overlapped_before (offer_given_up h k) o = o
overlapped_before (executed k h) o = o
overlapped_before (worker_cancelled k h l) o = o
overlapped_before (worker_closed k h l) o = o
overlapped_before (context_done h) o = o
overlapped_before (stop h) o = o
overlapped_before (stop_refused h) o = o
overlapped_before (stop_returned h d k b) o = o

Step-IsSound : {n : ℕ} {s t : Pool} → t.overlapped ≡ false → Step n s t → IsSound n s → IsSound n t
unfolding end_dispatcher
Step-IsSound o (start h k) i = ground (arith, i.quiet h k)
Step-IsSound o (start_overlapping t h k m) i = absurd (cc (m, o))
Step-IsSound o (stop_overlapping t h m) i = absurd (cc (m, o))
Step-IsSound o (start_refused h) i = i
Step-IsSound o (tick h) i = ground arith
Step-IsSound o (hand_over k h l) i = ground arith
Step-IsSound o (dispatcher_done h k) i = ground arith
Step-IsSound o (offer_given_up h k) i = ground arith
Step-IsSound o (executed k h) i = ground arith
Step-IsSound o (worker_cancelled k h l) i = ground arith
Step-IsSound o (worker_closed k h l) i = ground arith
Step-IsSound o (context_done h) i = ground arith
Step-IsSound o (stop h) i = ground arith
Step-IsSound o (stop_refused h) i = i
Step-IsSound o (stop_returned h d k b) i = ground arith

fresh-IsSound : {n : ℕ} → IsSound n fresh
unfolding fresh
fresh-IsSound = ground arith

pub Reach-IsSound : {n : ℕ} {s : Pool} → Reach n fresh s → s.overlapped ≡ false → IsSound n s
Reach-IsSound here o = fresh-IsSound
Reach-IsSound (next r st) o = Step-IsSound o st (Reach-IsSound r (overlapped_before st o))

-- As long as no call of `Start` has overlapped one of `Stop`: at every moment, at most the
-- configured number of workers is alive, each tick has led to at most one execution, and no channel was
-- closed twice; and if the pool neither runs nor is being stopped, then no goroutine of it is left.
pub pool_is_sound :
    {n : ℕ} {s : Pool}
    → Reach n fresh s
    → s.overlapped ≡ false
    → (s.idle + s.busy ≤ n)
      × (s.executions ≤ s.ticks)
      × (s.panicked ≡ false)
      × ((s.running ≡ true)
          ⊎ ((s.stopping ≡ true) ⊎ ((s.dispatcher ≡ gone) × (s.idle ≡ 0) × (s.busy ≡ 0))))
pool_is_sound {s} r o =
    let i = Reach-IsSound r o in
    (i.few, omega (arith, i.one_per_tick), i.calm, ground (arith, i.quiet))
