-- ===== src/Postgres/Retry/Trace.antt =====
-- What a retry run is seen to do.
use gframework.Base.{ℕ, zero, suc, ◌≡◌, Option, some, List, [], ◌∷◌, ℤ, min_ℤ, true}
use gframework.Errors.{Outcome, returned, GoError}
use gframework.Postgres.Retry.{RetryConfig, is_retryable_error, Event, called, waited, cancelled}

-- The calls of the operation.
abbrev pub calls : List Event → ℕ
calls [] = 0
calls (called o ∷ es) = suc (calls es)
calls (waited d ∷ es) = calls es
calls (cancelled d ∷ es) = calls es

-- The delays that were asked for, the one cut short included.
abbrev pub delays : List Event → List ℤ
delays [] = []
delays (called o ∷ es) = delays es
delays (waited d ∷ es) = d ∷ delays es
delays (cancelled d ∷ es) = d ∷ delays es

-- The last event, or `e` if there is none.
abbrev pub last_or : Option Event → List Event → Option Event
last_or e [] = e
last_or e (x ∷ es) = last_or (some x) es

abbrev pub IsRetryable : RetryConfig → Outcome → Type 0
IsRetryable cfg o =
    (e : GoError) × (o ≡ returned (some e)) × (is_retryable_error e cfg.retryable_errs ≡ true)

-- Only retryable errors are followed by anything.
abbrev pub Resumes : RetryConfig → List Event → Type 0
Resumes cfg [] = Unit
Resumes cfg (e ∷ []) = Unit
Resumes cfg (called o ∷ e ∷ es) = IsRetryable cfg o × Resumes cfg (e ∷ es)
Resumes cfg (waited d ∷ e ∷ es) = Resumes cfg (e ∷ es)
Resumes cfg (cancelled d ∷ e ∷ es) = ⊥

-- d, scale d, scale (scale d), … with every delay after the first capped.
abbrev pub schedule : RetryConfig → ℕ → ℤ → List ℤ
schedule cfg zero d = []
schedule cfg (suc n) d = d ∷ schedule cfg n (min_ℤ (cfg.scale d) cfg.max_delay)
