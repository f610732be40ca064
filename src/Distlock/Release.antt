-- ===== src/Distlock/Release.antt =====
-- distlock/distlock.go: a lock that was obtained is released once, after the handler.
use gframework.Base.{
  String, ◌≡◌, refl, true, false, Bool-cases, inl, inr, Option, none, some, ◌∷◌, ℤ,
}
use gframework.Errors.{GoError, is, Outcome, returned, panicked}
use gframework.Distlock.{
  obtained, handled, released, Locking, Redislock, not_obtained, release_after, after_obtain,
  with_lock, swallow, try_with_lock,
}

module _ {W : Type 0} (redislock : Redislock W) (key : String) (ttl : ℤ)
    (handler : W → Outcome × W) where
  -- What `TryWithLock` may do from `s`.
  pub data Attempt (s : Locking W) : Outcome × Locking W → Type 0 where
    skipped :
        (e : GoError) (w : W)
        → redislock.obtain key ttl s.world ≡ (some e, w)
        → is e not_obtained ≡ true
        → Attempt s (returned none, record s { world = w })
    failed :
        (e : GoError) (w : W)
        → redislock.obtain key ttl s.world ≡ (some e, w)
        → is e not_obtained ≡ false
        → Attempt s (returned (some e), record s { world = w })
    held :
        (v : W) (o : Outcome) (w : W) (r : Option GoError) (freed : W)
        → redislock.obtain key ttl s.world ≡ (none, v)
        → handler v ≡ (o, w)
        → redislock.release key w ≡ (r, freed)
        → ((e : GoError) → o ≡ returned (some e) → is e not_obtained ≡ false)
        → Attempt s (
          o,
          record { world = freed; log = released r ∷ (handled o ∷ (obtained key ttl ∷ s.log)) },
        )
    held_swallowed :
        (v : W) (e : GoError) (w : W) (r : Option GoError) (freed : W)
        → redislock.obtain key ttl s.world ≡ (none, v)
        → handler v ≡ (returned (some e), w)
        → redislock.release key w ≡ (r, freed)
        → is e not_obtained ≡ true
        → Attempt s (
          returned none,
          record {
            world = freed;
            log = released r ∷ (handled (returned (some e)) ∷ (obtained key ttl ∷ s.log));
          },
        )

  release_after-Attempt :
      (s : Locking W) (v : W) (o : Outcome) (w : W)
      → redislock.obtain key ttl s.world ≡ (none, v)
      → handler v ≡ (o, w)
      → let (e, w') = redislock.release key w in
        Attempt s (
          swallow redislock key ttl handler o,
          record { world = w'; log = released e ∷ (handled o ∷ (obtained key ttl ∷ s.log)) },
        )
  unfolding swallow
  release_after-Attempt s v (panicked p) w got ran =
      held v (panicked p) w _ _ got ran refl (λ e h. absurd (cc h))
  release_after-Attempt s v (returned none) w got ran =
      held v (returned none) w _ _ got ran refl (λ e h. absurd (cc h))
  release_after-Attempt s v (returned (some e)) w got ran = elim (Bool-cases (is e not_obtained)) [
    | inl missed ↦ rw missed (held_swallowed v e w _ _ got ran refl missed)
    | inr other ↦ rw other (
        held v (returned (some e)) w _ _ got ran refl
          (λ x h. let same : x ≡ e = cc h in rw same other))
  ]

  after_obtain-Attempt :
      (answer : Option GoError × W) (s : Locking W)
      → redislock.obtain key ttl s.world ≡ answer
      → let (o, t) = after_obtain redislock key ttl handler answer s in
        Attempt s (swallow redislock key ttl handler o, t)
  unfolding after_obtain release_after swallow is
  after_obtain-Attempt (none, v) s got =
      release_after-Attempt s v (handler v).0 (handler v).1 got refl
  after_obtain-Attempt (some e, w) s got = elim (Bool-cases (is e not_obtained)) [
    | inl missed ↦ rw missed (skipped e w got missed)
    | inr other ↦ rw (other, other) (failed e w got other)
  ]

  -- `TryWithLock` that does not obtain the lock runs nothing and returns nil if the lock is held by
  -- another, or else the error. If it obtains the lock, it runs the handler once and then releases the
  -- lock once, whether the handler returned or panicked. It ends like the handler, but for an error of
  -- the handler's that is or wraps ErrLockNotObtained, which becomes nil.
  pub try_with_lock-Attempt :
      (s : Locking W) → Attempt s (try_with_lock redislock key ttl handler s)
  unfolding try_with_lock with_lock
  try_with_lock-Attempt s = after_obtain-Attempt (redislock.obtain key ttl s.world) s refl
