-- ===== src/Taskqueue/Working.antt =====
-- taskqueue/taskqueue.go: what a worker does with the tasks that it receives.
use gframework.Base.{ℕ, zero, suc, String, Option, List, [], ◌∷◌, str_eq, Bool-cases, inl, inr}
use gframework.Errors.{GoError}
use gframework.Taskqueue.{
  Task, Queue, Env, Event, taken, executed, untracked, payload_deleted, Logged, note, Received,
  context_done, closed, task, delete_payload, process_task, after_receive, worker,
}

-- What a worker that is between two tasks has done, newest first: each task that it took it executed,
-- once; then it asked to take the task off the processing set; then, it may be, to delete its payload.
pub data InTurn : List Event → Type 0 where
  nothing : InTurn []
  finished :
      (id : String) (result removal : Option GoError) (log : List Event)
      → InTurn log
      → InTurn (untracked id removal ∷ (executed id result ∷ (taken id ∷ log)))
  finished_with_payload :
      (id : String) (result removal deletion : Option GoError) (log : List Event)
      → InTurn log
      → InTurn (
          payload_deleted id deletion
          ∷ (untracked id removal ∷ (executed id result ∷ (taken id ∷ log))))

module _ {W : Type 0} (env : Env W) (q : Queue) where
  process_task-InTurn :
      (t : Task) (s : Logged W)
      → InTurn s.log
      → InTurn (process_task env q t (note env q (taken t.id) s.world s)).log
  unfolding process_task delete_payload
  process_task-InTurn t s h = elim (Bool-cases (str_eq t.payload "")) [
    | inl empty ↦ rw empty (finished t.id _ _ s.log h)
    | inr full ↦ rw full (finished_with_payload t.id _ _ _ s.log h)
  ]

  after_receive-InTurn :
      (next : Logged W → Logged W)
      → ((s : Logged W) → InTurn s.log → InTurn (next s).log)
      → (r : Received) (s : Logged W) → InTurn s.log
      → InTurn (after_receive env q next r s).log
  unfolding after_receive
  after_receive-InTurn next ih context_done s h = h
  after_receive-InTurn next ih closed s h = h
  after_receive-InTurn next ih (task t) s h = ih _ (process_task-InTurn t s h)

  worker_keeps : (rounds : ℕ) (s : Logged W) → InTurn s.log → InTurn (worker env q rounds s).log
  unfolding worker
  worker_keeps zero s h = h
  worker_keeps (suc rounds) s h =
      after_receive-InTurn (worker env q rounds) (worker_keeps rounds) _ _ h

  -- However long a worker runs, and whatever the executor and Redis answer, it has executed every task
  -- that it took from the channel once, before it took the next one, and after the execution, whether it
  -- failed or not, has asked once to take the task off the processing set, and only after that, if at
  -- all, to delete its payload.
  pub worker-InTurn :
      (rounds : ℕ) (w : W) → InTurn (worker env q rounds (record { world = w; log = [] })).log
  worker-InTurn rounds w = worker_keeps rounds (record { world = w; log = [] }) nothing
