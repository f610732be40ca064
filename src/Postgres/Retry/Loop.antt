-- ===== src/Postgres/Retry/Loop.antt =====
-- postgres/retry.go: the possible runs of the loop of `WithRetry`, as a relation, and what holds of
-- each of them.
use gframework.Base.{
  ℕ, zero, suc, ◌-◌, ◌≤◌, ◌≡◌, refl, ◌≢◌, ◌↔◌, Option, none, some, List, [], ◌∷◌, ℤ, min_ℤ, ◌⊎◌,
  arith, inl, inr, Option-cases,
}
use gframework.Errors.{GoError, wrap, Outcome, returned, panicked}
use gframework.Postgres.Retry.{
  RetryConfig, Event, called, waited, cancelled, Verdict, done, again, judge, pause, after_wait,
  emit, finish, proceed, stop, retry_failed, loop,
}
use gframework.Postgres.Retry.Trace.{calls, delays, last_or, IsRetryable, Resumes, schedule}

judge-again :
    (cfg : RetryConfig) (n : ℕ) (o : Outcome) {e : GoError}
    → judge cfg n o ≡ again e
    → IsRetryable cfg o
unfolding judge
judge-again cfg n (panicked v) h = cc
judge-again cfg n (returned none) h = cc
judge-again cfg n (returned (some e)) h = (e, refl, ground arith)

judge-again-ne :
    (cfg : RetryConfig) (n : ℕ) (o : Outcome) {e : GoError}
    → judge cfg n o ≡ again e
    → some (called o) ≢ some (called (returned none))
unfolding judge
judge-again-ne cfg n (panicked v) h = cc
judge-again-ne cfg n (returned none) h = cc
judge-again-ne cfg n (returned (some e)) h = λ k. cc

judge-nil :
    (cfg : RetryConfig) (n : ℕ) (o : Outcome) {r : Outcome}
    → judge cfg n o ≡ done r
    → (r ≡ returned none) ↔ (o ≡ returned none)
unfolding judge
judge-nil cfg n (panicked v) h = ground arith
judge-nil cfg n (returned none) h = ground arith
judge-nil cfg n (returned (some e)) h = ground arith

-- The runs that are possible with `left` rounds left at attempt `n` and delay `d`.
pub data Runs (cfg : RetryConfig) : ℕ → ℕ → ℤ → List Event → Outcome → Type 0 where
  never :
      {n : ℕ} {d : ℤ} (last : Option GoError)
      → Runs cfg zero n d [] (returned (some (retry_failed last)))
  gave_up :
      {left n : ℕ} {d : ℤ} (e : GoError)
      → Runs cfg
          (suc left)
          (suc n)
          d
          (cancelled d ∷ [])
          (returned (some (wrap "retry cancelled" e)))
  first_done :
      {left : ℕ} {d : ℤ} {o r : Outcome}
      → judge cfg 0 o ≡ done r
      → Runs cfg (suc left) zero d (called o ∷ []) r
  first_again :
      {left : ℕ} {d : ℤ} {o r : Outcome} {e : GoError} {es : List Event}
      → judge cfg 0 o ≡ again e
      → Runs cfg left 1 d es r
      → Runs cfg (suc left) zero d (called o ∷ es) r
  later_done :
      {left n : ℕ} {d : ℤ} {o r : Outcome}
      → judge cfg (suc n) o ≡ done r
      → Runs cfg (suc left) (suc n) d (waited d ∷ called o ∷ []) r
  later_again :
      {left n : ℕ} {d : ℤ} {o r : Outcome} {e : GoError} {es : List Event}
      → judge cfg (suc n) o ≡ again e
      → Runs cfg left (suc (suc n)) (min_ℤ (cfg.scale d) cfg.max_delay) es r
      → Runs cfg (suc left) (suc n) d (waited d ∷ called o ∷ es) r

pub Verdict-cases : (v : Verdict) → ((r : Outcome) × (v ≡ done r)) ⊎ ((e : GoError) × (v ≡ again e))
Verdict-cases (done r) = inl (r, refl)
Verdict-cases (again e) = inr (e, refl)

module _ {W : Type 0} (cfg : RetryConfig) (fn : W → Outcome × W)
    (wait : ℤ → W → Option GoError × W) where
  after_wait-some :
      (d : ℤ) (p : Option GoError × W) {e : GoError}
      → p.0 ≡ some e
      → after_wait cfg fn wait d p
        ≡ record { stopped = some e; events = cancelled d ∷ []; delay = d; world = p.1 }
  unfolding after_wait
  after_wait-some d (some e, w) h = ground arith
  after_wait-some d (none, w) h = cc

  after_wait-none :
      (d : ℤ) (p : Option GoError × W)
      → p.0 ≡ none
      → after_wait cfg fn wait d p ≡ record {
        stopped = none;
        events = waited d ∷ [];
        delay = min_ℤ (cfg.scale d) cfg.max_delay;
        world = p.1;
      }
  unfolding after_wait
  after_wait-none d (some e, w) h = cc
  after_wait-none d (none, w) h = refl

  pub loop-none :
      (n : ℕ) (d : ℤ) (last : Option GoError) (w : W)
      → loop cfg fn wait zero n d last w ≡ stop cfg fn wait (returned (some (retry_failed last))) w
  unfolding loop
  loop-none n d last w = refl

  pub loop-first :
      (left : ℕ) (d : ℤ) (last : Option GoError) (w : W)
      → let (o, w') = fn w in
        loop cfg fn wait (suc left) zero d last w
        ≡ emit
            (called o ∷ [])
            (finish cfg fn wait (λ e. loop cfg fn wait left 1 d (some e)) (judge cfg 0 o) w')
  unfolding loop proceed pause
  loop-first left d last w = refl

  pub loop-fired :
      (left n : ℕ) (d : ℤ) (last : Option GoError) (w : W)
      → (wait d w).0 ≡ none
      → let (o, w') = fn (wait d w).1 in
        loop cfg fn wait (suc left) (suc n) d last w
        ≡ emit (waited d ∷ called o ∷ []) (
            finish cfg fn wait
              (λ e.
                loop cfg fn wait left (suc (suc n)) (min_ℤ (cfg.scale d) cfg.max_delay) (some e))
              (judge cfg (suc n) o)
              w')
  unfolding loop pause
  loop-fired left n d last w h = rw (after_wait-none d (wait d w) h) (unfold proceed in refl)

  pub loop-stopped :
      (left n : ℕ) (d : ℤ) (last : Option GoError) (w : W) {e : GoError}
      → (wait d w).0 ≡ some e
      → loop cfg fn wait (suc left) (suc n) d last w
        ≡ emit
            (cancelled d ∷ [])
            (stop cfg fn wait (returned (some (wrap "retry cancelled" e))) (wait d w).1)
  unfolding loop pause
  loop-stopped left n d last w h = rw (after_wait-some d (wait d w) h) (unfold proceed in refl)

  pub loop-Runs :
      (left n : ℕ) (d : ℤ) (last : Option GoError) (w : W)
      → let r = loop cfg fn wait left n d last w in Runs cfg left n d r.trace r.result
  unfolding finish
  loop-Runs zero n d last w = rw (loop-none n d last w) (never last)
  loop-Runs (suc left) zero d last w = elim (Verdict-cases (judge cfg 0 (fn w).0)) [
    | inl (r, h) ↦ rw (loop-first left d last w, h) (first_done h)
    | inr (e, h) ↦
        rw (loop-first left d last w, h) (first_again h (loop-Runs left 1 d (some e) (fn w).1))
  ]
  loop-Runs (suc left) (suc n) d last w = elim (Option-cases (wait d w).0) [
    | inr (e, stopped) ↦ rw (loop-stopped left n d last w stopped) (gave_up e)
    | inl fired ↦ elim (Verdict-cases (judge cfg (suc n) (fn (wait d w).1).0)) [
      | inl (r, h) ↦ rw (loop-fired left n d last w fired, h) (later_done h)
      | inr (e, h) ↦
          rw (loop-fired left n d last w fired, h)
            (later_again h (
              loop-Runs left (suc (suc n)) (min_ℤ (cfg.scale d) cfg.max_delay) (some e)
                (fn (wait d w).1).1))
    ]
  ]

module _ {cfg : RetryConfig} where
  pub Runs-calls :
      {left n : ℕ} {d : ℤ} {es : List Event} {r : Outcome}
      → Runs cfg left n d es r
      → calls es ≤ left
  Runs-calls (never last) = omega arith
  Runs-calls (gave_up e) = omega arith
  Runs-calls (first_done h) = omega arith
  Runs-calls (first_again h t) = omega (arith, Runs-calls t)
  Runs-calls (later_done h) = omega arith
  Runs-calls (later_again h t) = omega (arith, Runs-calls t)

  pub Runs-delays :
      {left n : ℕ} {d : ℤ} {es : List Event} {r : Outcome}
      → Runs cfg left (suc n) d es r
      → (k : ℕ) × (k ≤ left) × (delays es ≡ schedule cfg k d)
  Runs-delays (never last) = (0, omega arith, refl)
  Runs-delays (gave_up e) = (1, omega arith, refl)
  Runs-delays (later_done h) = (1, omega arith, refl)
  Runs-delays (later_again h t) =
      let (k, below, same) = Runs-delays t in (suc k, omega arith, rw same)

  pub Runs-Resumes :
      {left n : ℕ} {d : ℤ} {es : List Event} {r : Outcome} → Runs cfg left n d es r → Resumes cfg es
  Runs-Resumes (never last) = tt
  Runs-Resumes (gave_up e) = tt
  Runs-Resumes (first_done h) = tt
  Runs-Resumes {es = called o ∷ []} (first_again h t) = tt
  Runs-Resumes {es = called o ∷ e ∷ es} (first_again h t) = (judge-again _ _ _ h, Runs-Resumes t)
  Runs-Resumes (later_done h) = tt
  Runs-Resumes {es = waited d ∷ called o ∷ []} (later_again h t) = tt
  Runs-Resumes {es = waited d ∷ called o ∷ e ∷ es} (later_again h t) =
      (judge-again _ _ _ h, Runs-Resumes t)

  pub Runs-nil :
      {left n : ℕ} {d : ℤ} {es : List Event} {r : Outcome} (x : Option Event)
      → x ≢ some (called (returned none))
      → Runs cfg left n d es r
      → (r ≡ returned none) ↔ (last_or x es ≡ some (called (returned none)))
  Runs-nil x ne (never last) = ground arith
  Runs-nil x ne (gave_up e) = ground arith
  Runs-nil x ne (first_done {o} h) = ground (arith, judge-nil cfg _ o h)
  Runs-nil x ne (first_again {o} h t) = Runs-nil (some (called o)) (judge-again-ne cfg _ o h) t
  Runs-nil x ne (later_done {o} h) = ground (arith, judge-nil cfg _ o h)
  Runs-nil x ne (later_again {o} h t) = Runs-nil (some (called o)) (judge-again-ne cfg _ o h) t

  pub Runs-delays_first :
      {left : ℕ} {d : ℤ} {es : List Event} {r : Outcome}
      → Runs cfg left zero d es r
      → (k : ℕ) × (k ≤ left - 1) × (delays es ≡ schedule cfg k d)
  Runs-delays_first (never last) = (0, omega arith, refl)
  Runs-delays_first (first_done h) = (0, omega arith, refl)
  Runs-delays_first (first_again h t) =
      let (k, below, same) = Runs-delays t in (k, omega arith, same)
