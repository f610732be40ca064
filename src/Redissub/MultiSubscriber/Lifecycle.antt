-- ===== src/Redissub/MultiSubscriber/Lifecycle.antt =====
-- redissub/multi_subscriber.go: one call of `Start` and one of `Stop`, with the goroutines of the
-- subscribers. Every subscriber is registered before `Start`. A subscriber that runs may end by itself:
-- its subscription failed, or the context is done. What one call does to several flags in a row is a step.
pub mod Waiting
use gframework.Base.{ℕ, zero, suc, ◌+◌, ◌≤◌, ◌≡◌, Bool, true, false, ◌⊎◌}

-- Not called, past the swap of `running`, launching goroutines, in the loop, returned.
pub data StartPhase : Type 0 where
  idle entered launching looping returned : StartPhase

-- Not called, in the loop over the subscribers, waiting for the goroutines, past the wait.
pub data StopPhase : Type 0 where
  uncalled visiting waiting passed : StopPhase

-- Counts of subscribers. Those that `Stop` has not visited: without a goroutine, with one that has not
-- entered the subscriber's `Start`, running, and ended. Those that it has visited: while they had no
-- goroutine, with one that has not entered `Start`, running without having been told to stop, told to
-- stop, and ended.
pub record Group : Type 0 where
  pub running : Bool
  pub healthy : Bool
  pub shutdown : Bool
  pub stopped : Bool
  pub cancelled : Bool
  pub start_phase : StartPhase
  pub stop_phase : StopPhase
  pub unlaunched : ℕ
  pub launched : ℕ
  pub working : ℕ
  pub ended : ℕ
  pub missed : ℕ
  pub late : ℕ
  pub deaf : ℕ
  pub told : ℕ
  pub gone : ℕ

pub data Step (s : Group) : Group → Type 0 where
  start :
      s.start_phase ≡ idle
      → s.running ≡ false
      → s.stop_phase ≡ uncalled
      → Step s (record s { running = true; start_phase = entered })
  start_empty :
      s.start_phase ≡ entered
      → s.unlaunched ≡ 0
      → s.missed ≡ 0
      → Step s (record s { start_phase = returned; stopped = true })
  start_launching :
      s.start_phase ≡ entered
      → 1 ≤ s.unlaunched + s.missed
      → Step s (record s { start_phase = launching; healthy = true })
  launch :
      (k : ℕ)
      → s.start_phase ≡ launching
      → s.unlaunched ≡ suc k
      → Step s (record s { unlaunched = k; launched = suc s.launched })
  launch_missed :
      (k : ℕ)
      → s.start_phase ≡ launching
      → s.missed ≡ suc k
      → Step s (record s { missed = k; late = suc s.late })
  start_looping :
      s.start_phase ≡ launching
      → s.unlaunched ≡ 0
      → s.missed ≡ 0
      → Step s (record s { start_phase = looping })
  begin : (k : ℕ) → s.launched ≡ suc k → Step s (record s { launched = k; working = suc s.working })
  end : (k : ℕ) → s.working ≡ suc k → Step s (record s { working = k; ended = suc s.ended })
  late_begin : (k : ℕ) → s.late ≡ suc k → Step s (record s { late = k; deaf = suc s.deaf })
  late_failed : (k : ℕ) → s.late ≡ suc k → Step s (record s { late = k; gone = suc s.gone })
  deaf_end :
      (k : ℕ)
      → s.deaf ≡ suc k
      → s.cancelled ≡ true
      → Step s (record s { deaf = k; gone = suc s.gone })
  told_end : (k : ℕ) → s.told ≡ suc k → Step s (record s { told = k; gone = suc s.gone })
  cancel : Step s (record s { cancelled = true })
  start_returned :
      s.start_phase ≡ looping
      → (s.shutdown ≡ true) ⊎ (s.cancelled ≡ true)
      → Step s (record s { start_phase = returned; healthy = false; stopped = true })
  stop :
      s.running ≡ true
      → s.stop_phase ≡ uncalled
      → Step s
          (record s { running = false; healthy = false; shutdown = true; stop_phase = visiting })
  visit_unlaunched :
      (k : ℕ)
      → s.stop_phase ≡ visiting
      → s.unlaunched ≡ suc k
      → Step s (record s { unlaunched = k; missed = suc s.missed })
  visit_launched :
      (k : ℕ)
      → s.stop_phase ≡ visiting
      → s.launched ≡ suc k
      → Step s (record s { launched = k; late = suc s.late })
  visit_working :
      (k : ℕ)
      → s.stop_phase ≡ visiting
      → s.working ≡ suc k
      → Step s (record s { working = k; told = suc s.told })
  visit_ended :
      (k : ℕ)
      → s.stop_phase ≡ visiting
      → s.ended ≡ suc k
      → Step s (record s { ended = k; gone = suc s.gone })
  stop_waiting :
      s.stop_phase ≡ visiting
      → s.unlaunched ≡ 0
      → s.launched ≡ 0
      → s.working ≡ 0
      → s.ended ≡ 0
      → Step s (record s { stop_phase = waiting })
  stop_passed :
      s.stop_phase ≡ waiting
      → s.late ≡ 0
      → s.deaf ≡ 0
      → s.told ≡ 0
      → Step s (record s { stop_phase = passed })

pub data Reach (s : Group) : Group → Type 0 where
  here : Reach s s
  next : {t u : Group} → Reach s t → Step t u → Reach s u
