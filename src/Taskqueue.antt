-- ===== src/Taskqueue.antt =====
-- taskqueue/taskqueue.go: tasks on a Redis list, with a sorted set of those in work and a hash of
-- payloads.
mod Options
pub mod Config
pub mod Lifecycle
pub mod Events
pub mod Fetching
pub mod Working
pub mod Recovery
mod Tests
pub use Options.{Task, Queue, QueueOption, apply_options}
unfoldable pub use Options.{
  with_worker_count, with_buffer_size, with_exec_timeout, with_poll_interval, new, default_queue,
}
use gframework.Base.{
  ℕ, zero, suc, ◌+◌, String, ◌≡◌, Bool, true, false, not, Option, none, some, List, [], ◌∷◌, ◌++◌,
  map, str_eq, if◌then◌else◌, ℤ, pos, negsuc, ltb_ℤ, leb_ℤ,
}
use Prim.Native.String.{◌++◌ as append}
use gframework.Errors.{GoError, sentinel, wrap, is, Result, ok, err}

-- A command inside `TxPipelined`.
pub data Command : Type 0 where
  lpush : String → List String → Command
  hset : String → String → String → Command
  zrem : String → String → Command

-- What a worker gets from its `select`.
pub data Received : Type 0 where
  context_done : Received
  closed : Received
  task : Task → Received

-- Redis, the clock (in seconds), the context, the channel and the executor act on a state `W`.
pub record Env (W : Type 0) : Type 0 where
  pub brpop : ℤ → String → W → Result String × W
  pub hget : String → String → W → Result String × W
  pub zadd : String → ℤ → String → W → Option GoError × W
  pub push_left : String → String → W → Option GoError × W
  pub remove_scored : String → String → W → Option GoError × W
  pub hdel : String → String → W → Option GoError × W
  pub range_to : String → ℤ → W → Result (List String) × W
  pub pipelined : List Command → W → Option GoError × W
  pub llen : String → W → Result ℕ × W
  pub zcard : String → W → Result ℕ × W
  pub now : W → ℤ × W
  pub before : ℤ → W → ℤ × W
  pub done : W → Bool × W
  pub offer : Task → W → Bool × W
  pub receive : W → Received × W
  pub execute : ℤ → Task → W → Option GoError × W

pub data Event : Type 0 where
  popped : String → Event
  tracked : String → Option GoError → Event
  returned : String → Option GoError → Event
  delivered : String → Event
  slept : ℤ → Event
  taken : String → Event
  executed : String → Option GoError → Event
  untracked : String → Option GoError → Event
  payload_deleted : String → Option GoError → Event
  moved : String → Option GoError → Event

-- The newest event first.
pub record Logged (W : Type 0) : Type 0 where
  pub world : W
  pub log : List Event

module _ {W : Type 0} (env : Env W) (q : Queue) where
  abbrev pub note : Event → W → Logged W → Logged W
  note e w s = record { world = w; log = e ∷ s.log }

  payload_commands : List Task → List Command
  payload_commands [] = []
  payload_commands (t ∷ ts) =
      let rest = payload_commands ts in
      if str_eq t.payload "" then rest else hset q.payload_key t.id t.payload ∷ rest

  pub push : List Task → W → Option GoError × W
  unfolding payload_commands
  push [] w = (none, w)
  push (t ∷ ts) w =
      env.pipelined (lpush q.queue_key (map (λ x. x.id) (t ∷ ts)) ∷ payload_commands (t ∷ ts)) w

  pub return_task : String → Logged W → Logged W
  return_task id s = let (e, w) = env.push_left q.queue_key id s.world in note (returned id e) w s

  after_zadd : Task → Option GoError → Logged W → Result Task × Logged W
  after_zadd t none s = (ok t, s)
  after_zadd t (some e) s =
      (err (wrap "failed to add task to processing set" e), return_task t.id s)

  track : Task → Logged W → Result Task × Logged W
  track t s =
      let (seconds, w) = env.now s.world in
      let (e, w') = env.zadd q.processing_key seconds t.id w in
      after_zadd t e (note (tracked t.id e) w' s)

  -- A missing payload is an empty one.
  after_hget : String → Result String → Logged W → Result Task × Logged W
  after_hget id (ok bytes) s = track (record { id = id; payload = bytes }) s
  after_hget id (err e) s =
      if is e "redis.Nil"
      then track (record { id = id; payload = "" }) s
      else (err (wrap "failed to get payload" e), return_task id s)

  after_brpop : Result String → W → Logged W → Result Task × Logged W
  after_brpop (err e) w s = (err e, record s { world = w })
  after_brpop (ok id) w s =
      let (payload, w') = env.hget q.payload_key id w in
      after_hget id payload (note (popped id) w' s)

  pub fetch_task : Logged W → Result Task × Logged W
  fetch_task s = let (r, w) = env.brpop q.poll_interval q.queue_key s.world in after_brpop r w s

  -- The fetcher's loop after a fetch; `next` is its next round.
  after_fetch : (Logged W → Logged W) → Result Task × Logged W → Logged W
  after_fetch next (err e, s) =
      let (stopped, w) = env.done s.world in
      if stopped
      then record s { world = w }
      else if is e "redis.Nil"
      then next (record s { world = w })
      else next (note (slept q.poll_interval) w s)
  after_fetch next (ok t, s) =
      let (sent, w) = env.offer t s.world in
      if sent then next (note (delivered t.id) w s) else return_task t.id (record s { world = w })

  -- The fetcher, for a number of rounds: it is a service that runs until its context is done.
  pub fetcher : ℕ → Logged W → Logged W
  fetcher zero s = s
  fetcher (suc rounds) s =
      let (stopped, w) = env.done s.world in
      let s' = record s { world = w } in
      if stopped then s' else after_fetch (fetcher rounds) (fetch_task s')

  delete_payload : Task → Logged W → Logged W
  delete_payload t s =
      if str_eq t.payload ""
      then s
      else (let (e, w) = env.hdel q.payload_key t.id s.world in note (payload_deleted t.id e) w s)

  pub process_task : Task → Logged W → Logged W
  process_task t s =
      let (e, w) = env.execute q.exec_timeout t s.world in
      let s1 = note (executed t.id e) w s in
      let (e', w') = env.remove_scored q.processing_key t.id w in
      delete_payload t (note (untracked t.id e') w' s1)

  after_receive : (Logged W → Logged W) → Received → Logged W → Logged W
  after_receive next context_done s = s
  after_receive next closed s = s
  after_receive next (task t) s = next (process_task t (note (taken t.id) s.world s))

  -- A worker, for a number of rounds.
  pub worker : ℕ → Logged W → Logged W
  worker zero s = s
  worker (suc rounds) s =
      let (r, w) = env.receive s.world in after_receive (worker rounds) r (record s { world = w })

  move_counted : Option GoError → ℕ → ℕ
  move_counted none n = suc n
  move_counted (some e) n = n

  -- Each stale task in turn, and how many were moved.
  pub recover_all : List String → ℕ → Logged W → ℕ × Logged W
  recover_all [] recovered s = (recovered, s)
  recover_all (id ∷ ids) recovered s =
      let (e, w) =
        env.pipelined (zrem q.processing_key id ∷ lpush q.queue_key (id ∷ []) ∷ []) s.world in
      recover_all ids (move_counted e recovered) (note (moved id e) w s)

  recover_found : Result (List String) → Logged W → Result ℕ × Logged W
  recover_found (err e) s = (err (wrap "failed to get stale tasks" e), s)
  recover_found (ok ids) s = let (n, s') = recover_all ids 0 s in (ok n, s')

  pub recover_stale : ℤ → Logged W → Result ℕ × Logged W
  recover_stale max_age s =
      if leb_ℤ max_age q.exec_timeout
      then (err (sentinel "ErrMaxAgeTooSmall"), s)
      else let (cutoff, w) = env.before max_age s.world in
        let (found, w') = env.range_to q.processing_key cutoff w in
        recover_found found (record s { world = w' })

  pub queue_length : W → Result ℕ × W
  queue_length w = env.llen q.queue_key w

  pub processing_count : W → Result ℕ × W
  processing_count w = env.zcard q.processing_key w
