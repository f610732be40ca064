-- ===== src/Postgres/Retry/Effects.antt =====
-- postgres/retry.go: an effect that only a successful call has, `WithRetry` has once, if it succeeds.
use gframework.Base.{
  ℕ, zero, suc, ◌≡◌, refl, Option, none, some, ℤ, min_ℤ, arith, Option-cases, inl, inr,
}
use gframework.Errors.{GoError, Outcome, returned, panicked, successes}
use gframework.Postgres.Retry.{RetryConfig, Run, judge, done, again, finish, loop, with_retry}
use gframework.Postgres.Retry.Loop.{Verdict-cases, loop-none, loop-first, loop-fired, loop-stopped}

successes-judge_done :
    (cfg : RetryConfig) (n : ℕ) (o : Outcome) {r : Outcome}
    → judge cfg n o ≡ done r
    → successes r ≡ successes o
unfolding judge
successes-judge_done cfg n (panicked v) h = ground arith
successes-judge_done cfg n (returned none) h = ground arith
successes-judge_done cfg n (returned (some e)) h = ground arith

successes-judge_again :
    (cfg : RetryConfig) (n : ℕ) (o : Outcome) {e : GoError}
    → judge cfg n o ≡ again e
    → successes o ≡ 0
unfolding judge
successes-judge_again cfg n (panicked v) h = cc
successes-judge_again cfg n (returned none) h = cc
successes-judge_again cfg n (returned (some e)) h = refl

-- `Adds s t n`: from the state `s` to `t` the effect happened `n` times.
module _ {W : Type 0} (cfg : RetryConfig) (fn : W → Outcome × W) (wait : ℤ → W → Option GoError × W)
    (Adds : W → W → ℕ → Type 0) (still : (s : W) → Adds s s 0)
    (then_adds : (s t u : W) (n : ℕ) → Adds s t 0 → Adds t u n → Adds s u n)
    (wait_adds : (d : ℤ) (s : W) → Adds s (wait d s).1 0)
    (fn_adds : (s : W) → Adds s (fn s).1 (successes (fn s).0)) where
  call-Adds :
      (n : ℕ) (s : W) (next : GoError → W → Run W)
      → ((e : GoError)
          → judge cfg n (fn s).0 ≡ again e
          → Adds (fn s).1 (next e (fn s).1).world (successes (next e (fn s).1).result))
      → let r = finish cfg fn wait next (judge cfg n (fn s).0) (fn s).1 in
        Adds s r.world (successes r.result)
  unfolding finish
  call-Adds n s next later = elim (Verdict-cases (judge cfg n (fn s).0)) [
    | inl (r, h) ↦ rw (h, successes-judge_done cfg n (fn s).0 h) (fn_adds s)
    | inr (e, h) ↦ rw h (
        then_adds s (fn s).1 _ _ (rw (successes-judge_again cfg n (fn s).0 h) at (fn_adds s))
          (later e h))
  ]

  loop-Adds :
      (left n : ℕ) (d : ℤ) (last : Option GoError) (s : W)
      → let r = loop cfg fn wait left n d last s in Adds s r.world (successes r.result)
  loop-Adds zero n d last s = rw (loop-none cfg fn wait n d last s) (still s)
  loop-Adds (suc left) zero d last s =
      rw (loop-first cfg fn wait left d last s)
        (call-Adds 0 s _ (λ e h. loop-Adds left 1 d (some e) (fn s).1))
  loop-Adds (suc left) (suc n) d last s = elim (Option-cases (wait d s).0) [
    | inr (e, h) ↦ rw (loop-stopped cfg fn wait left n d last s h) (wait_adds d s)
    | inl h ↦ rw (loop-fired cfg fn wait left n d last s h) (
        then_adds s (wait d s).1 _ _ (wait_adds d s) (
          call-Adds (suc n) (wait d s).1 _ (λ e k.
            loop-Adds left (suc (suc n)) (min_ℤ (cfg.scale d) cfg.max_delay) (some e)
              (fn (wait d s).1).1)))
  ]

  pub with_retry-Adds :
      (s : W) → let r = with_retry cfg fn wait s in Adds s r.world (successes r.result)
  unfolding with_retry
  with_retry-Adds s = loop-Adds _ 0 _ none s
