-- ===== src/Redissub/MultiSubscriber/Tests.antt =====
-- Runs of redissub/multi_subscriber.go, and concrete uses of what is proved of it.
use gframework.Base.{◌≤◌, ◌≢◌, ◌⊎◌, inl, ◌≡◌, refl, true, false, none, some, [], arith}
use gframework.Errors.{sentinel}
use gframework.Redissub.MultiSubscriber.{
  MultiSubscriber, new_multi_subscriber, subscribe, is_healthy, subscriber_count, add_subscriber,
}
use gframework.Redissub.MultiSubscriber.Lifecycle.{
  idle, launching, looping, uncalled, visiting, passed, Group, start, end, visit_working,
  start_launching, launch, stop, Reach, here, next,
}
use gframework.Redissub.MultiSubscriber.Lifecycle.Waiting.{
  OwnSteps, launched_subscriber-holds, stop_passes,
}
use gframework.Redissub.Subscriber.{new_subscriber}

-- One topic.
abbrev registered : Group
registered = record {
  running = false;
  healthy = false;
  shutdown = false;
  stopped = false;
  cancelled = false;
  start_phase = idle;
  stop_phase = uncalled;
  unlaunched = 1;
  launched = 0;
  working = 0;
  ended = 0;
  missed = 0;
  late = 0;
  deaf = 0;
  told = 0;
  gone = 0;
}

-- The goroutine is launched, and `Stop` begins its visits.
abbrev early : Group
early = record registered {
  running = false;
  shutdown = true;
  start_phase = launching;
  stop_phase = visiting;
  unlaunched = 0;
  launched = 1;
}

-- It is reached.
race : Reach registered early
race =
    next
      (next (next (next here (start refl refl refl)) (start_launching refl (omega arith)))
        (launch 0 refl refl))
      (stop refl refl)

launched_subscriber-holds_example :
    (t : Group) × Reach early t
    × (t.cancelled ≡ false)
    × ((u : Group) → Reach t u → (u.cancelled ≡ true) ⊎ ((1 ≤ u.deaf) × (u.stop_phase ≢ passed)))
launched_subscriber-holds_example = launched_subscriber-holds 0 refl refl

-- Two topics: one subscriber runs, the other has ended.
abbrev both_begun : Group
both_begun = record registered {
  running = true;
  start_phase = looping;
  unlaunched = 0;
  working = 2;
}

abbrev stopping : Group
stopping = record both_begun {
  running = false;
  shutdown = true;
  stop_phase = visiting;
  working = 0;
  ended = 1;
  told = 1;
}

Reach-stopping : Reach both_begun stopping
Reach-stopping = next (next (next here (stop refl refl)) (visit_working 1 refl refl)) (end 0 refl)

stop_passes_example : (u : Group) × OwnSteps stopping u × (u.stop_phase ≡ passed)
stop_passes_example = stop_passes refl Reach-stopping (inl refl)

abbrev group : MultiSubscriber
group = new_multi_subscriber "orders" true "billing" []

-- A topic is registered, an empty one and one that Watermill refuses are not.
runs :
    (subscriber_count (subscribe (λ c. none) "paid" true group).1 ≡ 1)
    × (subscribe (λ c. none) "" true group ≡ (some (sentinel "ErrEmptyTopic"), group))
    × ((subscribe (λ c. some (sentinel "ErrNoStream")) "paid" true group).1 ≡ group)
    × (is_healthy group ≡ false)
unfolding subscriber_count subscribe new_multi_subscriber is_healthy add_subscriber new_subscriber
runs = (refl, refl, refl, refl)
