-- ===== src/Taskqueue/Options.antt =====
-- taskqueue/taskqueue.go: a queue, its options and its construction.
use gframework.Base.{String, Bool, not, List, [], ◌∷◌, str_eq, if◌then◌else◌, ℤ, pos, ltb_ℤ}
use Prim.Native.String.{◌++◌ as append}
use gframework.Errors.{sentinel, Result, ok, err}

pub record Task : Type 0 where
  pub id : String
  pub payload : String

-- The channel's capacity is the argument of its last `make`.
pub record Queue : Type 0 where
  pub queue_key : String
  pub processing_key : String
  pub payload_key : String
  pub worker_count : ℤ
  pub buffer_size : ℤ
  pub exec_timeout : ℤ
  pub poll_interval : ℤ
  pub capacity : ℤ

abbrev pub QueueOption : Type 0
QueueOption = Queue → Queue

unfoldable pub with_worker_count : ℤ → QueueOption
with_worker_count count q = if ltb_ℤ (pos 0) count then record q { worker_count = count } else q

unfoldable pub with_buffer_size : ℤ → QueueOption
with_buffer_size size q =
    if ltb_ℤ (pos 0) size then record q { buffer_size = size; capacity = size } else q

unfoldable pub with_exec_timeout : ℤ → QueueOption
with_exec_timeout timeout q =
    if ltb_ℤ (pos 0) timeout then record q { exec_timeout = timeout } else q

unfoldable pub with_poll_interval : ℤ → QueueOption
with_poll_interval interval q =
    if ltb_ℤ (pos 0) interval then record q { poll_interval = interval } else q

abbrev pub apply_options : List QueueOption → Queue → Queue
apply_options [] q = q
apply_options (o ∷ os) q = apply_options os (o q)

unfoldable pub default_queue : String → Queue
default_queue key = record {
  queue_key = key;
  processing_key = append key ":processing";
  payload_key = append key ":payloads";
  worker_count = pos 10;
  buffer_size = pos 100;
  exec_timeout = pos 30_000_000_000;
  poll_interval = pos 1_000_000_000;
  capacity = pos 100;
}

-- The flags say whether a client and an executor were given.
unfoldable pub new : Bool → String → Bool → List QueueOption → Result Queue
unfolding default_queue
new client key executor opts =
    if not client
    then err (sentinel "ErrNilClient")
    else if str_eq key ""
    then err (sentinel "ErrEmptyQueueKey")
    else if not executor
    then err (sentinel "ErrNilExecutor")
    else ok (apply_options opts (default_queue key))
