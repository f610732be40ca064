-- ===== src/Demo/Work/Sending.antt =====
-- examples/demo-api/internal/executor/worker/message_publisher.go: what a run publishes.
use gframework.Base.{ℕ, zero, suc, ◌+◌, ◌≤◌, ◌<◌, String, Option, none, some, List, [], ◌∷◌, arith}
use gframework.Errors.{GoError}
use gframework.Demo.Work.{Call, and_then, repeat, some_times, message_publisher_execute}

-- The attempts, the newest first.
abbrev pub Attempts : Type 0
Attempts = List (String × Option GoError)

-- `n` successful attempts under a name on top of a log.
abbrev pub sent : ℕ → String → Attempts → Attempts
sent zero name log = log
sent (suc n) name log = sent n name ((name, none) ∷ log)

module _ {W : Type 0} (name : String) (call : Call W) where
  -- The call, with a note of its attempt.
  abbrev pub noted : Call (W × Attempts)
  noted (w, log) = let (e, w') = call w in (e, (w', (name, e) ∷ log))

  -- How a loop of calls ends.
  pub data Batch : ℕ → Attempts → Option GoError → Attempts → Type 0 where
    all_sent : (n : ℕ) (log : Attempts) → Batch n log none (sent n name log)
    failed_at :
        (n k : ℕ) (e : GoError) (log : Attempts)
        → k < n
        → Batch n log (some e) ((name, some e) ∷ sent k name log)

  Batch-suc :
      (n : ℕ) (log after : Attempts) (e : Option GoError)
      → Batch n ((name, none) ∷ log) e after
      → Batch (suc n) log e after
  Batch-suc n log after e (all_sent m l) = all_sent (suc m) log
  Batch-suc n log after e (failed_at m k x l less) = failed_at (suc n) (suc k) x log (omega arith)

  repeat-Batch : (n : ℕ) (s : W × Attempts) → let (e, s') = repeat n noted s in Batch n s.1 e s'.1
  unfolding repeat
  repeat-Batch zero s = all_sent 0 s.1
  repeat-Batch (suc n) (w, log) = step (call w).0 (call w).1 (repeat-Batch n)
    where
      step :
          (e : Option GoError) (w' : W)
          → ((s : W × Attempts) → let (d, s') = repeat n noted s in Batch n s.1 d s'.1)
          → let (d, s') = and_then (e, (w', (name, e) ∷ log)) (repeat n noted) in
            Batch (suc n) log d s'.1
      step (some e) w' rest = failed_at (suc n) 0 e log (omega arith)
      step none w' rest = Batch-suc n log _ _ (rest (w', (name, none) ∷ log))

abbrev pub order : String
order = "order"

abbrev pub notification : String
notification = "notification"

abbrev pub analytics : String
analytics = "analytics"

-- Between one and three.
abbrev pub Few : ℕ → Type 0
Few n = (1 ≤ n) × (n ≤ 3)

-- What a run leaves.
pub data Published : Option GoError → Attempts → Type 0 where
  all_published :
      (a b c : ℕ)
      → Few a
      → Few b
      → Few c
      → Published none (sent c analytics (sent b notification (sent a order [])))
  order_failed :
      (k : ℕ) (e : GoError) → k < 3 → Published (some e) ((order, some e) ∷ sent k order [])
  notification_failed :
      (a k : ℕ) (e : GoError)
      → Few a
      → k < 3
      → Published (some e) ((notification, some e) ∷ sent k notification (sent a order []))
  analytics_failed :
      (a b k : ℕ) (e : GoError)
      → Few a
      → Few b
      → k < 3
      → Published
          (some e)
          ((analytics, some e) ∷ sent k analytics (sent b notification (sent a order [])))

module _ {W : Type 0} (int_n : ℕ → W → ℕ × W)
    (in_range : (n : ℕ) (w : W) → (int_n (suc n) w).0 < suc n)
    (publish_order publish_notification publish_analytics : Call W) where
  -- The random numbers, beside the log.
  abbrev pub drawn : ℕ → W × Attempts → ℕ × (W × Attempts)
  drawn n (w, log) = let (k, w') = int_n n w in (k, (w', log))

  few : (w : W) → Few ((int_n 3 w).0 + 1)
  few w = (omega (arith, in_range 2 w), omega (arith, in_range 2 w))

  third :
      (a b : ℕ)
      → Few a
      → Few b
      → (p : Option GoError × (W × Attempts)) (n : ℕ) → Few n
      → Batch analytics publish_analytics n (sent b notification (sent a order [])) p.0 p.1.1
      → Published p.0 p.1.1
  third a b fa fb p n fn (all_sent m log) = all_published a b m fa fb fn
  third a b fa fb p n fn (failed_at m k e log less) =
      analytics_failed a b k e fa fb (omega (arith, fn.1, less))

  -- The analytics, after `a` orders and `b` notifications.
  analytics-Published :
      (a b : ℕ) (w : W)
      → Few a
      → Few b
      → let (e, s) =
          some_times drawn
            (noted analytics publish_analytics)
            (w, sent b notification (sent a order [])) in
        Published e s.1
  unfolding some_times
  analytics-Published a b w fa fb =
      let (k, w') = int_n 3 w in
      let log = sent b notification (sent a order []) in
      third a b fa fb (repeat (k + 1) (noted analytics publish_analytics) (w', log)) (k + 1) (few w)
        (repeat-Batch analytics publish_analytics (k + 1) (w', log))

  second :
      (a n : ℕ)
      → Few a
      → Few n
      → (p : Option GoError × (W × Attempts))
      → Batch notification publish_notification n (sent a order []) p.0 p.1.1
      → let (e, s) = and_then p (λ w2. some_times drawn (noted analytics publish_analytics) w2) in
        Published e s.1
  second a n fa fn (some x, (w, after)) (failed_at m k e log less) =
      notification_failed a k e fa (omega (arith, fn.1, less))
  second a n fa fn (none, (w, after)) (all_sent m log) = analytics-Published a m w fa fn

  notification-Published :
      (a : ℕ) (w : W)
      → Few a
      → let (e, s) =
          and_then
            (some_times drawn (noted notification publish_notification) (w, sent a order []))
            (λ w2. some_times drawn (noted analytics publish_analytics) w2) in
        Published e s.1
  unfolding some_times
  notification-Published a w fa =
      let (k, w') = int_n 3 w in
      second a (k + 1) fa (few w)
        (repeat (k + 1) (noted notification publish_notification) (w', sent a order []))
        (repeat-Batch notification publish_notification (k + 1) (w', sent a order []))

  first :
      (n : ℕ)
      → Few n
      → (p : Option GoError × (W × Attempts)) → Batch order publish_order n [] p.0 p.1.1
      → let (e, s) = and_then p (λ w1.
        and_then
          (some_times drawn (noted notification publish_notification) w1)
          (λ w2. some_times drawn (noted analytics publish_analytics) w2)) in
        Published e s.1
  first n fn (some x, (w, after)) (failed_at m k e log less) =
      order_failed k e (omega (arith, fn.1, less))
  first n fn (none, (w, after)) (all_sent m log) = notification-Published m w fn

  -- If the random numbers are in their range, a run publishes one to three orders, then one to three
  -- notifications, then one to three analytics events, and has no error; or it ends at the first event
  -- that cannot be published, with its error, after all those before it in this order.
  pub message_publisher-Published :
      (w : W)
      → let (e, s) =
          message_publisher_execute drawn
            (noted order publish_order)
            (noted notification publish_notification)
            (noted analytics publish_analytics)
            (w, []) in
        Published e s.1
  unfolding message_publisher_execute some_times
  message_publisher-Published w =
      let (k, w') = int_n 3 w in
      first (k + 1) (few w) (repeat (k + 1) (noted order publish_order) (w', []))
        (repeat-Batch order publish_order (k + 1) (w', []))
