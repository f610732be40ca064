-- ===== src/Redissub/Subscriber/Lifecycle/Safety.antt =====
-- redissub/subscriber.go: a subscriber can be started and stopped once.
use gframework.Base.{ℕ, ◌+◌, ◌≤◌, ◌≡◌, Bool, true, false, arith, ◌⊎◌}
use gframework.Redissub.Subscriber.Lifecycle.{
  Life, fresh, return_start, close_shutdown, Step, start, start_refused, subscribe_failed,
  subscribed, context_done, shutdown_seen, stop, stop_refused, stop_close, Reach, here, next,
}

-- The calls of `Start` that found the subscriber not running.
abbrev pub starts : Life → ℕ
starts s = s.subscribing + s.looping + s.returned

-- The calls of `Stop` that found it running.
abbrev pub stops : Life → ℕ
stops s = s.stopping + s.closed

abbrev one_if : Bool → ℕ
one_if true = 1
one_if false = 0

record IsSound (s : Life) : Type 0 where
  alternate : starts s ≡ stops s + one_if s.running
  open_stopped : s.stopped ≡ false → s.returned ≡ 0
  open_shutdown : s.shutdown ≡ false → s.closed ≡ 0
  one_return : s.panicked ≡ false → s.returned ≤ 1
  one_close : s.panicked ≡ false → s.closed ≤ 1
  returned_once : s.stopped ≡ true → 1 ≤ s.returned
  closed_once : s.shutdown ≡ true → 1 ≤ s.closed
  panic_needs : s.panicked ≡ true → (2 ≤ s.returned) ⊎ (2 ≤ s.closed)
  healthy_loops : s.healthy ≡ true → 1 ≤ s.looping

Step-IsSound : {s t : Life} → s.panicked ≡ false → Step s t → IsSound s → IsSound t
unfolding return_start close_shutdown
Step-IsSound p (start h) i = ground arith
Step-IsSound p (start_refused h) i = i
Step-IsSound p (subscribe_failed n h) i = ground arith
Step-IsSound p (subscribed n h) i = ground arith
Step-IsSound p (context_done n h) i = ground arith
Step-IsSound p (shutdown_seen n h k) i = ground arith
Step-IsSound p (stop h) i = ground arith
Step-IsSound p (stop_refused h) i = i
Step-IsSound p (stop_close n h) i = ground arith

fresh-IsSound : IsSound fresh
unfolding fresh
fresh-IsSound = ground arith

Reach-IsSound : {s : Life} → Reach fresh s → IsSound s
Reach-IsSound here = fresh-IsSound
Reach-IsSound (next r p st) = Step-IsSound p st (Reach-IsSound r)

-- Whatever the order of the calls, a subscriber that was started once has not panicked, and it is
-- healthy only while a call of `Start` is in its loop.
pub one_life_is_safe :
    {s : Life}
    → Reach fresh s
    → starts s ≤ 1
    → (s.panicked ≡ false) × ((s.healthy ≡ false) ⊎ (1 ≤ s.looping))
one_life_is_safe r h = let i = Reach-IsSound r in ground arith

-- A subscriber cannot be used again: in every state that is reached without a panic at most one call
-- of `Start` has returned and at most one call of `Stop` has closed the shutdown channel.
pub no_second_life :
    {s : Life} → Reach fresh s → s.panicked ≡ false → (s.returned ≤ 1) × (s.closed ≤ 1)
no_second_life r h = let i = Reach-IsSound r in ground arith
