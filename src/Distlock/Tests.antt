-- ===== src/Distlock/Tests.antt =====
-- Runs of distlock/distlock.go, and concrete uses of what is proved of it.
use gframework.Base.{ℕ, ◌≡◌, refl, none, some, [], ◌∷◌, pos, ◌==◌, if◌then◌else◌}
use gframework.Errors.{sentinel, wrap, Outcome, returned, panicked, is}
use gframework.Distlock.{
  obtained, handled, released, Locking, Redislock, not_obtained, with_lock, try_with_lock, swallow,
  after_obtain, release_after,
}
use gframework.Distlock.Release.{Attempt, try_with_lock-Attempt}

-- The state is 0 for a free lock and 1 for one that is held.
abbrev redislock : Redislock ℕ
redislock = record {
  obtain = λ key ttl w. if w == 0 then (none, 1) else (some (sentinel not_obtained), w);
  release = λ key w. (none, 0);
}

abbrev at : ℕ → Locking ℕ
at w = record { world = w; log = [] }

abbrev panics : ℕ → Outcome × ℕ
panics w = (panicked "boom", w)

try_with_lock-Attempt_example : Attempt redislock "job" (pos 5) panics (at 0) (
  panicked "boom",
  record {
    world = 0;
    log = released none ∷ (handled (panicked "boom") ∷ (obtained "job" (pos 5) ∷ []));
  },
)
unfolding try_with_lock with_lock swallow after_obtain release_after
try_with_lock-Attempt_example = try_with_lock-Attempt redislock "job" (pos 5) panics (at 0)

-- A lock that another holds; a handler's error that wraps ErrLockNotObtained is lost.
runs :
    ((try_with_lock redislock "job" (pos 5) panics (at 1)).0 ≡ returned none)
    × ((with_lock redislock "job" (pos 5) panics (at 1)).0
        ≡ returned (some (sentinel not_obtained)))
    × ((try_with_lock redislock "job"
          (pos 5)
          (λ w. (returned (some (wrap "inner job" (sentinel not_obtained))), w))
          (at 0)).0
        ≡ returned none)
unfolding try_with_lock with_lock swallow after_obtain is release_after
runs = (refl, refl, refl)
