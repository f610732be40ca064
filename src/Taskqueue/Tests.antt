-- ===== src/Taskqueue/Tests.antt =====
-- Runs of taskqueue/taskqueue.go on a small store, and concrete uses of what is proved of it.
use gframework.Base.{
  ℕ, zero, suc, ◌+◌, ◌≤◌, String, ◌≡◌, refl, Bool, true, false, Option, none, some, List, [], ◌∷◌,
  ◌++◌, str_eq, if◌then◌else◌, pos, negsuc,
}
use gframework.Errors.{GoError, sentinel, is, Result, ok, err}
use gframework.Taskqueue.{
  Queue, Env, Logged, Command, lpush, hset, zrem, Received, closed, task, new, default_queue, push,
  fetch_task, fetcher, worker, recover_stale, popped, tracked, returned, delivered, taken, executed,
  untracked, moved, with_worker_count, with_buffer_size, slept, after_fetch, after_brpop,
  after_hget, track, after_zadd, return_task, after_receive, process_task, delete_payload,
  recover_found, recover_all, move_counted,
}
use gframework.Taskqueue.Events.{tally, pop_of, delivery, give_back, tracked_as}
use gframework.Taskqueue.Config.{worker_count, buffer_size, options_of}
use gframework.Taskqueue.Fetching.{fetcher-Balanced}
use gframework.Taskqueue.Working.{InTurn, worker-InTurn}

-- The waiting tasks, and how many deliveries the workers still accept.
abbrev Store : Type 0
Store = List String × ℕ

abbrev pop_first : Store → Result String × Store
pop_first ([], n) = (err (sentinel "redis.Nil"), ([], n))
pop_first (id ∷ ids, n) = (ok id, (ids, n))

abbrev accept : Store → Bool × Store
accept (ids, zero) = (false, (ids, 0))
accept (ids, suc n) = (true, (ids, n))

abbrev next_task : Store → Received × Store
next_task ([], n) = (closed, ([], n))
next_task (id ∷ ids, n) = (task (record { id = id; payload = "" }), (ids, n))

abbrev broken : String → Option GoError
broken id = if str_eq id "b" then some (sentinel "broken") else none

abbrev first_id : List Command → String
first_id (zrem k id ∷ cs) = id
first_id (lpush k ids ∷ cs) = ""
first_id (hset k f v ∷ cs) = ""
first_id [] = ""

abbrev env : Env Store
env = record {
  brpop = λ timeout key w. pop_first w;
  hget = λ key id w. (err (sentinel "redis.Nil"), w);
  zadd = λ key score id w. (broken id, w);
  push_left = λ key id w. (none, (w.0 ++ id ∷ [], w.1));
  remove_scored = λ key id w. (none, w);
  hdel = λ key id w. (none, w);
  range_to = λ key max w. (ok w.0, w);
  pipelined = λ cs w. (broken (first_id cs), w);
  llen = λ key w. (ok 0, w);
  zcard = λ key w. (ok 0, w);
  now = λ w. (pos 1_700_000_000, w);
  before = λ age w. (pos 1_699_999_000, w);
  done = λ w. (false, w);
  offer = λ t w. accept w;
  receive = next_task;
  execute = λ timeout t w. (broken t.id, w);
}

abbrev jobs : Queue
jobs = default_queue "jobs"

abbrev start : Store
start = ("a" ∷ "b" ∷ "c" ∷ [], 1)

abbrev recovered : Logged Store
recovered = record {
  world = start;
  log = moved "c" none ∷ moved "b" (some (sentinel "broken")) ∷ moved "a" none ∷ [];
}

-- Task b is given back because it cannot be tracked, c because the workers have stopped.
runs :
    ((fetcher env jobs 3 (record { world = start; log = [] })).log
      ≡ returned "c" none
        ∷ tracked "c" none
        ∷ popped "c"
        ∷ slept (pos 1_000_000_000)
        ∷ returned "b" none
        ∷ tracked "b" (some (sentinel "broken"))
        ∷ popped "b"
        ∷ delivered "a"
        ∷ tracked "a" none
        ∷ popped "a"
        ∷ [])
    × ((worker env jobs 1 (record { world = start; log = [] })).log
        ≡ untracked "a" none ∷ executed "a" none ∷ taken "a" ∷ [])
    × (push env jobs [] start ≡ (none, start))
    × (recover_stale env jobs (pos 60_000_000_000) (record { world = start; log = [] })
        ≡ (ok 2, recovered))
unfolding fetcher worker fetch_task push recover_stale default_queue after_fetch after_brpop
    after_hget is track after_zadd return_task after_receive process_task delete_payload
    recover_found recover_all move_counted
runs = (refl, refl, refl, refl)

fetcher-Balanced_example :
    let log = (fetcher env jobs 3 (record { world = start; log = [] })).log in
    (tally pop_of "b" log ≡ tally delivery "b" log + tally give_back "b" log)
    × (tally delivery "b" log ≤ tally tracked_as "b" log)
fetcher-Balanced_example = fetcher-Balanced env jobs "b" 3 start

worker-InTurn_example : InTurn (worker env jobs 3 (record { world = start; log = [] })).log
worker-InTurn_example = worker-InTurn env jobs 3 start

abbrev eager : Queue
eager = record (default_queue "jobs") { worker_count = pos 4 }

given :
    new true "jobs" true (options_of (worker_count (pos 4) ∷ buffer_size (negsuc 0) ∷ []))
    ≡ ok eager
unfolding new with_buffer_size with_worker_count
given = refl
