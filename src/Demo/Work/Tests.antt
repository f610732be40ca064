-- ===== src/Demo/Work/Tests.antt =====
-- Runs of the publishers and the executors.
use gframework.Demo.Work.Sending.{
  drawn, noted, order, notification, analytics, Published, message_publisher-Published,
}
use gframework.Base.{arith, ℤ, pos, ◌*ℤ◌, ◌-◌, ℕ, String, ◌≡◌, refl, none, some, List, [], ◌∷◌}
use gframework.Errors.{sentinel}
use gframework.Demo.Work.{
  Call, message_publisher_execute, repeat, some_times, handle_order, handle_after,
}

-- The state is the topics published; a third attempt fails.
abbrev send : String → Call (List String)
send topic sent = refuse_third sent
  where
    refuse_third : Call (List String)
    refuse_third (a ∷ (b ∷ [])) = (some (sentinel "stream is full"), a ∷ b ∷ [])
    refuse_third [] = (none, topic ∷ [])
    refuse_third (a ∷ []) = (none, topic ∷ a ∷ [])
    refuse_third (a ∷ (b ∷ (c ∷ more))) = (none, topic ∷ a ∷ b ∷ c ∷ more)

abbrev smallest : ℕ → List String → ℕ × List String
smallest n sent = (0, sent)

-- The second state is how long the handler slept.
runs :
    (message_publisher_execute smallest (send "orders") (send "notifications") (send "analytics") []
      ≡ (some (sentinel "stream is full"), "notifications" ∷ "orders" ∷ []))
    × (handle_order {W = ℤ} (λ n w. (n - 1, w)) (λ d w. d) (pos 0) ≡ (none, pos 599_000_000))
unfolding message_publisher_execute some_times repeat handle_order handle_after ◌*ℤ◌
runs = (refl, refl)

message_publisher-Published_example :
    let (e, s) =
      message_publisher_execute
        (drawn smallest (λ n w. omega arith) (send "a") (send "b") (send "c"))
        (noted order (send "a"))
        (noted notification (send "b"))
        (noted analytics (send "c"))
        ([], []) in
    Published e s.1
message_publisher-Published_example =
    message_publisher-Published smallest (λ n w. omega arith) (send "a") (send "b") (send "c") []
