-- ===== src/Taskqueue/Config.antt =====
-- taskqueue/taskqueue.go: the configuration of a queue.
use gframework.Base.{
  String, ◌≡◌, refl, inl, inr, Bool, true, false, List, [], ◌∷◌, str_eq, arith, Bool-cases, ℤ, pos,
  ◌<ℤ◌,
}
use gframework.Errors.{ok}
use gframework.Taskqueue.{
  Queue, QueueOption, with_worker_count, with_buffer_size, with_exec_timeout, with_poll_interval,
  apply_options, default_queue, new,
}

-- The options of the package.
pub data Setting : Type 0 where
  worker_count buffer_size exec_timeout poll_interval : ℤ → Setting

abbrev pub option_of : Setting → QueueOption
option_of (worker_count n) = with_worker_count n
option_of (buffer_size n) = with_buffer_size n
option_of (exec_timeout n) = with_exec_timeout n
option_of (poll_interval n) = with_poll_interval n

abbrev pub options_of : List Setting → List QueueOption
options_of [] = []
options_of (s ∷ ss) = option_of s ∷ options_of ss

-- All that the queue needs to work, and the channel as large as the queue says.
abbrev pub IsConfigured : Queue → Type 0
IsConfigured q =
    (pos 0 <ℤ q.worker_count)
    × (pos 0 <ℤ q.exec_timeout)
    × (pos 0 <ℤ q.poll_interval)
    × (pos 0 <ℤ q.buffer_size)
    × (q.capacity ≡ q.buffer_size)

option-IsConfigured : (s : Setting) (q : Queue) → IsConfigured q → IsConfigured (option_of s q)
unfolding with_worker_count with_buffer_size with_exec_timeout with_poll_interval
option-IsConfigured (worker_count n) q h = ground arith
option-IsConfigured (buffer_size n) q h = ground arith
option-IsConfigured (exec_timeout n) q h = ground arith
option-IsConfigured (poll_interval n) q h = ground arith

options-IsConfigured :
    (ss : List Setting) (q : Queue)
    → IsConfigured q
    → IsConfigured (apply_options (options_of ss) q)
options-IsConfigured [] q h = h
options-IsConfigured (s ∷ ss) q h = options-IsConfigured ss _ (option-IsConfigured s q h)

new-given :
    (client : Bool) (key : String) (executor : Bool) (opts : List QueueOption) (q : Queue)
    → new client key executor opts ≡ ok q
    → apply_options opts (default_queue key) ≡ q
unfolding new
new-given false key executor opts q h = absurd (ground arith)
new-given true key false opts q h = elim (Bool-cases (str_eq key "")) [
  | inl empty ↦ absurd (ground arith)
  | inr full ↦ absurd (ground arith)
]
new-given true key true opts q h = elim (Bool-cases (str_eq key "")) [
  | inl empty ↦ absurd (ground arith)
  | inr full ↦ cc
]

default-IsConfigured : (key : String) → IsConfigured (default_queue key)
unfolding default_queue
default-IsConfigured key = (omega arith, omega arith, omega arith, omega arith, refl)

-- A queue that `New` gives has at least one worker and positive timeouts and buffer, whatever values
-- its options were given, and its channel has the buffer's size.
pub new-IsConfigured :
    (client : Bool) (key : String) (executor : Bool) (ss : List Setting) (q : Queue)
    → new client key executor (options_of ss) ≡ ok q
    → IsConfigured q
new-IsConfigured client key executor ss q h =
    rw (← new-given client key executor (options_of ss) q h)
      (options-IsConfigured ss (default_queue key) (default-IsConfigured key))
