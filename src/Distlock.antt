-- ===== src/Distlock.antt =====
-- distlock/distlock.go: a handler that runs under a lock.
pub mod Release
mod Tests
use gframework.Base.{String, Option, none, some, List, [], ◌∷◌, ℤ, if◌then◌else◌, true, false}
use gframework.Errors.{GoError, sentinel, is, Outcome, returned, panicked}

pub data Event : Type 0 where
  obtained : String → ℤ → Event
  handled : Outcome → Event
  released : Option GoError → Event

-- The newest event first.
pub record Locking (W : Type 0) : Type 0 where
  pub world : W
  pub log : List Event

-- The lock of redislock, obtained for a key and a time to live, on a state `W`.
pub record Redislock (W : Type 0) : Type 0 where
  pub obtain : String → ℤ → W → Option GoError × W
  pub release : String → W → Option GoError × W

abbrev pub not_obtained : String
not_obtained = "redislock.ErrNotObtained"

module _ {W : Type 0} (redislock : Redislock W) (key : String) (ttl : ℤ)
    (handler : W → Outcome × W) where
  -- The deferred release, whether the handler returned or panicked; its error is only logged.
  release_after : Outcome × W → Locking W → Outcome × Locking W
  release_after (o, w) s =
      let (e, w') = redislock.release key w in
      (o, record { world = w'; log = released e ∷ (handled o ∷ s.log) })

  after_obtain : Option GoError × W → Locking W → Outcome × Locking W
  after_obtain (some e, w) s = (
    returned (some (if is e not_obtained then sentinel not_obtained else e)),
    record s { world = w },
  )
  after_obtain (none, w) s =
      release_after (handler w) (record { world = w; log = obtained key ttl ∷ s.log })

  pub with_lock : Locking W → Outcome × Locking W
  with_lock s = after_obtain (redislock.obtain key ttl s.world) s

  -- The handler's own error is swallowed too if it is, or wraps, ErrLockNotObtained.
  swallow : Outcome → Outcome
  swallow (panicked v) = panicked v
  swallow (returned none) = returned none
  swallow (returned (some e)) = if is e not_obtained then returned none else returned (some e)

  pub try_with_lock : Locking W → Outcome × Locking W
  try_with_lock s = let (o, t) = with_lock s in (swallow o, t)
