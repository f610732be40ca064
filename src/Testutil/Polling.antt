-- ===== src/Testutil/Polling.antt =====
-- testutil/helpers.go: what a polling test tells.
use gframework.Base.{ℕ, zero, suc, String, ◌≡◌, refl, true, false, Bool-cases, inl, inr, some}
use gframework.Testutil.{Verdict, passed, failed, Poll, eventually}

module _ {W : Type 0} (poll : Poll W) (message : String) where
  -- The state after a round, and after a number of them.
  abbrev round : W → W
  round w = poll.pause (poll.condition (poll.before_deadline w).1).1

  abbrev pub after : ℕ → W → W
  after zero w = w
  after (suc n) w = after n (round w)

  -- A test passes at the first round that begins before the deadline and meets the condition, and fails
  -- at the first that begins after the deadline.
  pub data Ends : W → Verdict → Type 0 where
    met :
        (w : W)
        → (poll.before_deadline w).0 ≡ true
        → (poll.condition (poll.before_deadline w).1).0 ≡ true
        → Ends w passed
    late : (w : W) → (poll.before_deadline w).0 ≡ false → Ends w (failed message)
    later :
        (w : W) (v : Verdict)
        → (poll.before_deadline w).0 ≡ true
        → (poll.condition (poll.before_deadline w).1).0 ≡ false
        → Ends (round w) v
        → Ends w v

  -- If the deadline is over in some round, the test has ended by then, as it should.
  pub eventually-Ends :
      (n : ℕ) (w : W)
      → (poll.before_deadline (after n w)).0 ≡ false
      → (v : Verdict) × ((eventually poll message (suc n) w).0 ≡ some v) × Ends w v
  unfolding eventually
  eventually-Ends zero w over = (failed message, rw over refl, late w over)
  eventually-Ends (suc n) w over = elim (Bool-cases (poll.before_deadline w).0) [
    | inr past ↦ (failed message, rw past refl, late w past)
    | inl early ↦ elim (Bool-cases (poll.condition (poll.before_deadline w).1).0) [
      | inl holds ↦ (passed, rw (early, holds) refl, met w early holds)
      | inr fails ↦
          let (v, is, ends) = eventually-Ends n (round w) over in
          (v, rw (early, fails) is, later w v early fails ends)
    ]
  ]
