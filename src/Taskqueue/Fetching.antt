-- ===== src/Taskqueue/Fetching.antt =====
-- taskqueue/taskqueue.go: what the fetcher does with the tasks that it pops.
use gframework.Base.{
  ℕ, zero, suc, ◌+◌, ◌≤◌, String, ◌≡◌, refl, inl, inr, Option, none, some, List, [], arith,
  Bool-cases,
}
use gframework.Errors.{GoError, is, Result, ok, err}
use gframework.Taskqueue.{
  Task, Queue, Env, Event, popped, tracked, Logged, note, return_task, after_zadd, track,
  after_hget, after_brpop, fetch_task, after_fetch, fetcher,
}
use gframework.Taskqueue.Events.{tally, is_for, pop_of, tracked_as, give_back, delivery}

abbrev held_by : Result Task → Option String
held_by (ok t) = some t.id
held_by (err e) = none

-- While the fetcher holds a task, it is neither delivered nor returned; it is in the processing set
-- before it is delivered.
abbrev pub Balanced : String → Option String → List Event → Type 0
Balanced id held log =
    (tally pop_of id log ≡ tally delivery id log + tally give_back id log + is_for id held)
    × (tally delivery id log ≤ tally tracked_as id log)

-- Moreover, the task that the fetcher holds was tracked.
abbrev Ready : String → Option String → List Event → Type 0
Ready id held log =
    Balanced id held log × (tally delivery id log + is_for id held ≤ tally tracked_as id log)

module _ {W : Type 0} (env : Env W) (q : Queue) (id : String) where
  return_task-Balanced :
      (j : String) (s : Logged W)
      → Balanced id (some j) s.log
      → Balanced id none (return_task env q j s).log
  unfolding return_task
  return_task-Balanced j s h = omega arith

  after_zadd-Ready :
      (t : Task) (e : Option GoError) (w : W) (s : Logged W)
      → Balanced id (some t.id) s.log
      → let (r, s') = after_zadd env q t e (note env q (tracked t.id e) w s) in
        Ready id (held_by r) s'.log
  unfolding after_zadd return_task
  after_zadd-Ready t none w s h = omega arith
  after_zadd-Ready t (some e) w s h = omega arith

  track-Ready :
      (t : Task) (s : Logged W)
      → Balanced id (some t.id) s.log
      → let (r, s') = track env q t s in Ready id (held_by r) s'.log
  unfolding track
  track-Ready t s h = after_zadd-Ready t _ _ s h

  after_hget-Ready :
      (j : String) (p : Result String) (s : Logged W)
      → Balanced id (some j) s.log
      → let (r, s') = after_hget env q j p s in Ready id (held_by r) s'.log
  unfolding after_hget
  after_hget-Ready j (ok bytes) s h = track-Ready _ s h
  after_hget-Ready j (err e) s h = elim (Bool-cases (is e "redis.Nil")) [
    | inl missing ↦ rw missing (track-Ready _ s h)
    | inr failed ↦ rw failed (omega (arith, return_task-Balanced j s h))
  ]

  after_brpop-Ready :
      (r : Result String) (w : W) (s : Logged W)
      → Balanced id none s.log
      → let (r', s') = after_brpop env q r w s in Ready id (held_by r') s'.log
  unfolding after_brpop
  after_brpop-Ready (err e) w s h = omega arith
  after_brpop-Ready (ok j) w s h = after_hget-Ready j _ (note env q (popped j) _ s) (omega arith)

  fetch_task-Ready :
      (s : Logged W)
      → Balanced id none s.log
      → let (r, s') = fetch_task env q s in Ready id (held_by r) s'.log
  unfolding fetch_task
  fetch_task-Ready s h = after_brpop-Ready _ _ s h

  after_fetch-Balanced :
      (next : Logged W → Logged W)
      → ((s : Logged W) → Balanced id none s.log → Balanced id none (next s).log)
      → (f : Result Task × Logged W) → Ready id (held_by f.0) f.1.log
      → Balanced id none (after_fetch env q next f).log
  unfolding after_fetch
  after_fetch-Balanced next ih (err e, s) h = elim (Bool-cases (env.done s.world).0) [
    | inl stopped ↦ rw stopped (h.0.0, h.0.1)
    | inr on ↦ elim (Bool-cases (is e "redis.Nil")) [
      | inl nothing ↦ rw (on, nothing) (ih _ (omega arith))
      | inr failed ↦ rw (on, failed) (ih _ (omega arith))
    ]
  ]
  after_fetch-Balanced next ih (ok t, s) h = elim (Bool-cases (env.offer t s.world).0) [
    | inl sent ↦ rw sent (ih _ (omega arith))
    | inr stopped ↦ rw stopped (return_task-Balanced t.id _ h.0)
  ]

  fetcher-keeps :
      (rounds : ℕ) (s : Logged W)
      → Balanced id none s.log
      → Balanced id none (fetcher env q rounds s).log
  unfolding fetcher
  fetcher-keeps zero s h = h
  fetcher-keeps (suc rounds) s h = elim (Bool-cases (env.done s.world).0) [
    | inl stopped ↦ rw stopped h
    | inr on ↦ rw on (
        after_fetch-Balanced (fetcher env q rounds) (fetcher-keeps rounds) _ (fetch_task-Ready _ h))
  ]

  -- However long the fetcher runs, and whatever Redis, the context and the workers do, it has passed on
  -- or given back every task that it popped, each time it popped it: the number of times that `id` was
  -- popped is the number of deliveries to the workers plus the number of attempts to push it back; and
  -- it was put into the processing set successfully at least as often as it was delivered.
  pub fetcher-Balanced :
      (rounds : ℕ) (w : W)
      → let log = (fetcher env q rounds (record { world = w; log = [] })).log in
        (tally pop_of id log ≡ tally delivery id log + tally give_back id log)
        × (tally delivery id log ≤ tally tracked_as id log)
  fetcher-Balanced rounds w =
      let h = fetcher-keeps rounds (record { world = w; log = [] }) (refl, omega arith) in
      omega arith
