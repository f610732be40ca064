-- ===== src/Redissub/MultiSubscriber/Lifecycle/Waiting.antt =====
-- redissub/multi_subscriber.go: how long `Stop` waits for the subscribers.
use gframework.Base.{
  Bool, false, ◌≢◌, ℕ, zero, suc, ◌+◌, ◌≤◌, ◌≡◌, refl, true, arith, ◌⊎◌, inl, inr,
}
use gframework.Redissub.MultiSubscriber.Lifecycle.{
  visiting, waiting, passed, Group, Step, Reach, here, next, start, start_empty, start_launching,
  launch, launch_missed, start_looping, begin, end, late_begin, late_failed, deaf_end, told_end,
  cancel, start_returned, stop, visit_unlaunched, visit_launched, visit_working, visit_ended,
  stop_waiting, stop_passed,
}

-- A subscriber runs that `Stop` visited before, and `Stop` is not past its wait.
abbrev pub Held : Group → Type 0
Held s = (1 ≤ s.deaf) × ((s.stop_phase ≡ visiting) ⊎ (s.stop_phase ≡ waiting))

Step-Held : {s t : Group} → Step s t → Held s → (t.cancelled ≡ true) ⊎ Held t
Step-Held (start a b c) h = ground arith
Step-Held (start_empty a b c) h = ground arith
Step-Held (start_launching a b) h = ground arith
Step-Held (launch a b c) h = ground arith
Step-Held (launch_missed a b c) h = ground arith
Step-Held (start_looping a b c) h = ground arith
Step-Held (begin a b) h = ground arith
Step-Held (end a b) h = ground arith
Step-Held (late_begin a b) h = ground arith
Step-Held (late_failed a b) h = ground arith
Step-Held (deaf_end a b c) h = ground arith
Step-Held (told_end a b) h = ground arith
Step-Held cancel h = ground arith
Step-Held (start_returned a b) h = ground arith
Step-Held (stop a b) h = ground arith
Step-Held (visit_unlaunched a b c) h = ground arith
Step-Held (visit_launched a b c) h = ground arith
Step-Held (visit_working a b c) h = ground arith
Step-Held (visit_ended a b c) h = ground arith
Step-Held (stop_waiting a b c d e) h = ground arith
Step-Held (stop_passed a b c d) h = ground arith

-- Every subscriber runs, has been told to stop, or has ended.
abbrev pub AllBegun : Group → Type 0
AllBegun s = s.unlaunched + s.launched + s.missed + s.late + s.deaf ≡ 0

Step-AllBegun : {s t : Group} → Step s t → AllBegun s → AllBegun t
Step-AllBegun (start a b c) h = ground arith
Step-AllBegun (start_empty a b c) h = ground arith
Step-AllBegun (start_launching a b) h = ground arith
Step-AllBegun (launch a b c) h = ground arith
Step-AllBegun (launch_missed a b c) h = ground arith
Step-AllBegun (start_looping a b c) h = ground arith
Step-AllBegun (begin a b) h = ground arith
Step-AllBegun (end a b) h = ground arith
Step-AllBegun (late_begin a b) h = ground arith
Step-AllBegun (late_failed a b) h = ground arith
Step-AllBegun (deaf_end a b c) h = ground arith
Step-AllBegun (told_end a b) h = ground arith
Step-AllBegun cancel h = ground arith
Step-AllBegun (start_returned a b) h = ground arith
Step-AllBegun (stop a b) h = ground arith
Step-AllBegun (visit_unlaunched a b c) h = ground arith
Step-AllBegun (visit_launched a b c) h = ground arith
Step-AllBegun (visit_working a b c) h = ground arith
Step-AllBegun (visit_ended a b c) h = ground arith
Step-AllBegun (stop_waiting a b c d e) h = ground arith
Step-AllBegun (stop_passed a b c d) h = ground arith

cancelled-Step : {s t : Group} → Step s t → (s.cancelled ≡ true) → t.cancelled ≡ true
cancelled-Step (start a b c) h = ground arith
cancelled-Step (start_empty a b c) h = ground arith
cancelled-Step (start_launching a b) h = ground arith
cancelled-Step (launch a b c) h = ground arith
cancelled-Step (launch_missed a b c) h = ground arith
cancelled-Step (start_looping a b c) h = ground arith
cancelled-Step (begin a b) h = ground arith
cancelled-Step (end a b) h = ground arith
cancelled-Step (late_begin a b) h = ground arith
cancelled-Step (late_failed a b) h = ground arith
cancelled-Step (deaf_end a b c) h = ground arith
cancelled-Step (told_end a b) h = ground arith
cancelled-Step cancel h = ground arith
cancelled-Step (start_returned a b) h = ground arith
cancelled-Step (stop a b) h = ground arith
cancelled-Step (visit_unlaunched a b c) h = ground arith
cancelled-Step (visit_launched a b c) h = ground arith
cancelled-Step (visit_working a b c) h = ground arith
cancelled-Step (visit_ended a b c) h = ground arith
cancelled-Step (stop_waiting a b c d e) h = ground arith
cancelled-Step (stop_passed a b c d) h = ground arith

Step-waits :
    {s t : Group} → Step s t → (s.cancelled ≡ true) ⊎ Held s → (t.cancelled ≡ true) ⊎ Held t
Step-waits st (inl h) = inl (cancelled-Step st h)
Step-waits st (inr h) = Step-Held st h

Held-Reach : {s t : Group} → Held s → Reach s t → (t.cancelled ≡ true) ⊎ Held t
Held-Reach h here = inr h
Held-Reach h (next r st) = Step-waits st (Held-Reach h r)

Held-stays :
    (u : Group)
    → (u.cancelled ≡ true) ⊎ Held u
    → (u.cancelled ≡ true) ⊎ ((1 ≤ u.deaf) × (u.stop_phase ≢ passed))
Held-stays u (inl h) = inl h
Held-stays u (inr (d, inl v)) = inr (d, λ e. absurd (cc (v, e)))
Held-stays u (inr (d, inr w)) = inr (d, λ e. absurd (cc (w, e)))

-- At every moment at which `Stop` visits the subscribers and the goroutine of a subscriber that it has
-- not visited was launched and has not entered the subscriber's `Start`, the visit and the entry can come
-- in an order after which `Stop` never gets past its wait and some subscriber always runs without
-- having been told to stop, whatever happens then, unless the context is cancelled.
pub launched_subscriber-holds :
    {s : Group} (k : ℕ)
    → s.stop_phase ≡ visiting
    → s.launched ≡ suc k
    → (t : Group) × Reach s t
      × (t.cancelled ≡ s.cancelled)
      × ((u : Group) → Reach t u → (u.cancelled ≡ true) ⊎ ((1 ≤ u.deaf) × (u.stop_phase ≢ passed)))
launched_subscriber-holds {s} k v h = (
  record s { launched = k; deaf = suc s.deaf },
  next (next here (visit_launched k v h)) (late_begin s.late refl),
  refl,
  λ u r. Held-stays u (Held-Reach (omega arith, inl v) r),
)

Reach-AllBegun : {s t : Group} → AllBegun s → Reach s t → AllBegun t
Reach-AllBegun h here = h
Reach-AllBegun h (next r st) = Step-AllBegun st (Reach-AllBegun h r)

-- The steps of `Stop` itself, and the ends of subscribers that it has told to stop.
abbrev pub is_own : {s t : Group} → Step s t → Bool
is_own (told_end k h) = true
is_own (visit_unlaunched k v h) = true
is_own (visit_launched k v h) = true
is_own (visit_working k v h) = true
is_own (visit_ended k v h) = true
is_own (stop_waiting v a b c d) = true
is_own (stop_passed v a b c) = true
is_own _ = false

-- A sequence of such steps.
pub data OwnSteps (s : Group) : Group → Type 0 where
  done : OwnSteps s s
  then_own : {t u : Group} → OwnSteps s t → (st : Step t u) → is_own st ≡ true → OwnSteps s u

-- `Stop` visits the subscribers that run and those that have ended, and waits for the goroutines.
tell :
    {s : Group}
    → (k : ℕ) (t : Group) → OwnSteps s t
    → AllBegun t
    → t.stop_phase ≡ visiting
    → t.working ≡ k
    → (u : Group) × OwnSteps s u × AllBegun u × (u.stop_phase ≡ visiting) × (u.working ≡ 0)
tell zero t r a v h = (t, r, a, v, h)
tell (suc k) t r a v h = tell k _ (then_own r (visit_working k v h) refl) a v refl

pass_ended :
    {s : Group}
    → (k : ℕ) (t : Group) → OwnSteps s t
    → AllBegun t
    → t.stop_phase ≡ visiting
    → t.working ≡ 0
    → t.ended ≡ k
    → (u : Group) × OwnSteps s u × AllBegun u × (u.stop_phase ≡ waiting)
pass_ended zero t r a v w h = (
  record t { stop_phase = waiting },
  then_own r (stop_waiting v (omega arith) (omega arith) w h) refl,
  a,
  refl,
)
pass_ended (suc k) t r a v w h = pass_ended k _ (then_own r (visit_ended k v h) refl) a v w refl

wait_told :
    {s : Group}
    → (k : ℕ) (t : Group) → OwnSteps s t
    → AllBegun t
    → t.stop_phase ≡ waiting
    → t.told ≡ k
    → (u : Group) × OwnSteps s u × (u.stop_phase ≡ passed)
wait_told zero t r a v h = (
  record t { stop_phase = passed },
  then_own r (stop_passed v (omega arith) (omega arith) h) refl,
  refl,
)
wait_told (suc k) t r a v h = wait_told k _ (then_own r (told_end k h) refl) a v refl

-- If every subscriber has entered its `Start` when `Stop` is called, `Stop` is never stuck: from every
-- moment after that at which it visits the subscribers or waits for them, it can come past its wait by
-- its own steps and the ends of subscribers that it has told to stop alone: no cancelled context is needed.
pub stop_passes :
    {s t : Group}
    → AllBegun s
    → Reach s t
    → (t.stop_phase ≡ visiting) ⊎ (t.stop_phase ≡ waiting)
    → (u : Group) × OwnSteps t u × (u.stop_phase ≡ passed)
stop_passes begun r (inr w) = wait_told _ _ done (Reach-AllBegun begun r) w refl
stop_passes begun r (inl v) =
    let (a, to_a, begun_a, visits, none_works) = tell _ _ done (Reach-AllBegun begun r) v refl in
    let (b, to_b, begun_b, waits) = pass_ended a.ended a to_a begun_a visits none_works refl in
    wait_told b.told b to_b begun_b waits refl
