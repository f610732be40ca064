-- ===== src/Workerpool/Lifecycle/Stopping.antt =====
-- workerpool/workerpool.go: `Stop` is never stuck.
use gframework.Base.{Bool, ℕ, zero, suc, ◌≡◌, refl, ◌∙◌, true, false}
use gframework.Workerpool.Lifecycle.{
  Dispatcher, waiting, offering, gone, Pool, fresh, end_dispatcher, Step, worker_closed,
  dispatcher_done, offer_given_up, executed, worker_cancelled, stop_returned, Reach,
}
use gframework.Workerpool.Lifecycle.Safety.{Reach-IsSound}

-- The ends of executions, workers and the dispatcher, and the return of `Stop`.
abbrev pub is_own : {n : ℕ} {s t : Pool} → Step n s t → Bool
is_own (dispatcher_done h c) = true
is_own (offer_given_up h c) = true
is_own (executed k h) = true
is_own (worker_cancelled k h c) = true
is_own (worker_closed k h c) = true
is_own (stop_returned h d k b) = true
is_own _ = false

-- A sequence of such steps.
pub data OwnSteps (n : ℕ) (s : Pool) : Pool → Type 0 where
  done : OwnSteps n s s
  then_own : {t u : Pool} → OwnSteps n s t → (st : Step n t u) → is_own st ≡ true → OwnSteps n s u

-- The same call of `Stop` is still waiting, and nothing new was executed.
record Waits (s t : Pool) : Type 0 where
  still : t.stopping ≡ s.stopping
  off : t.running ≡ s.running
  told : t.cancelled ≡ s.cancelled
  no_more : t.executions ≡ s.executions

module _ {n : ℕ} {s : Pool} (call : s.stopping ≡ true) (cancelled : s.cancelled ≡ true) where
  -- The dispatcher ends.
  end_it :
      (d : Dispatcher)
      → s.dispatcher ≡ d
      → (t : Pool) × OwnSteps n s t × Waits s t × (t.dispatcher ≡ gone)
  unfolding end_dispatcher
  end_it waiting h = (
    end_dispatcher s,
    then_own done (dispatcher_done h cancelled) refl,
    record { still = refl; off = refl; told = refl; no_more = refl },
    refl,
  )
  end_it offering h = (
    end_dispatcher s,
    then_own done (offer_given_up h cancelled) refl,
    record { still = refl; off = refl; told = refl; no_more = refl },
    refl,
  )
  end_it gone h = (s, done, record { still = refl; off = refl; told = refl; no_more = refl }, h)

  -- The executions return.
  finish_busy :
      (b : ℕ) (t : Pool)
      → OwnSteps n s t
      → Waits s t
      → t.dispatcher ≡ gone
      → t.busy ≡ b
      → (u : Pool) × OwnSteps n s u × Waits s u × (u.dispatcher ≡ gone) × (u.busy ≡ 0)
  finish_busy zero t r w d h = (t, r, w, d, h)
  finish_busy (suc b) t r w d h =
      finish_busy b _ (then_own r (executed b h) refl)
        (record { still = w.still; off = w.off; told = w.told; no_more = w.no_more }) d refl

  -- The workers see the cancelled context.
  release_idle :
      (i : ℕ) (t : Pool)
      → OwnSteps n s t
      → Waits s t
      → t.dispatcher ≡ gone
      → t.busy ≡ 0
      → t.idle ≡ i
      → (u : Pool) × OwnSteps n s u
        × Waits s u
        × (u.dispatcher ≡ gone)
        × (u.busy ≡ 0)
        × (u.idle ≡ 0)
  release_idle zero t r w d b h = (t, r, w, d, b, h)
  release_idle (suc i) t r w d b h =
      release_idle i _ (then_own r (worker_cancelled i h (w.told ∙ cancelled)) refl)
        (record { still = w.still; off = w.off; told = w.told; no_more = w.no_more }) d b refl

  stop_can_return :
      (t : Pool) × OwnSteps n s t
      × (t.stopping ≡ false)
      × (t.running ≡ s.running)
      × (t.executions ≡ s.executions)
  stop_can_return =
      let (a, r, w, d) = end_it s.dispatcher refl in
      let (a1, r1, w1, d1, b1) = finish_busy a.busy a r w d refl in
      let (a2, r2, w2, d2, b2, i2) = release_idle a1.idle a1 r1 w1 d1 b1 refl in
      (
        record a2 { stopping = false },
        then_own r2 (stop_returned (w2.still ∙ call) d2 i2 b2) refl,
        refl,
        w2.off,
        w2.no_more,
      )

-- A call of `Stop` that no `Start` overlaps, in the life of a pool without such an overlap, is never
-- stuck: from every moment at which it waits, the pool can come to its return by the ends of
-- the executions that are under way, of the workers and of the dispatcher alone; no further execution is
-- needed, and the pool is not running then.
pub stop_returns :
    {n : ℕ} {s : Pool}
    → Reach n fresh s
    → s.overlapped ≡ false
    → s.stopping ≡ true
    → (t : Pool) × OwnSteps n s t
      × (t.stopping ≡ false)
      × (t.running ≡ false)
      × (t.executions ≡ s.executions)
stop_returns r o call =
    let i = Reach-IsSound r o in
    let (t, path, stopped, off, same) = stop_can_return call (i.one_call call).1 in
    (t, path, stopped, off ∙ (i.one_call call).0, same)
