-- ===== src/Redissub/Subscriber/Counts.antt =====
-- Counts over the log of a message.
use gframework.Base.{
  ℕ, suc, ◌+◌, ◌≡◌, ◌<◌, ◌≤◌, ltb_ℤ, wrap_64, wrap_64-small, wrap_64_le, pos-+ℤ, ◌+ℤ◌,
  if◌then◌else◌, Option, none, some, ℤ, pos, negsuc, pos_part, arith, List, [], ◌∷◌, Bool, true,
  false,
}
use gframework.Redissub.Subscriber.{
  RetryConfig, max_attempts, Effect, executed, sent, acked, metric_processed, metric_nacked,
  DeadLetter,
}

abbrev pub executions : List Effect → ℕ
executions [] = 0
executions (executed r ∷ es) = suc (executions es)
executions (_ ∷ es) = executions es

-- Calls of `msg.Ack`.
abbrev pub acks : List Effect → ℕ
acks [] = 0
acks (acked fresh ∷ es) = suc (acks es)
acks (_ ∷ es) = acks es

-- What was sent to the dead letter queue, newest first.
abbrev pub letters : List Effect → List DeadLetter
letters [] = []
letters (sent d r ∷ es) = d ∷ letters es
letters (_ ∷ es) = letters es

-- Calls of `MessageProcessed`.
abbrev pub processed : List Effect → ℕ
processed [] = 0
processed (metric_processed r ∷ es) = suc (processed es)
processed (_ ∷ es) = processed es

abbrev pub nacked : List Effect → ℕ
nacked [] = 0
nacked (metric_nacked ∷ es) = suc (nacked es)
nacked (_ ∷ es) = nacked es

abbrev pub one_if : Bool → ℕ
one_if true = 1
one_if false = 0

-- Between two logs only executions and waits were added.
pub record Quiet (old new : List Effect) : Type 0 where
  pub same_acks : acks new ≡ acks old
  pub same_letters : letters new ≡ letters old
  pub same_processed : processed new ≡ processed old
  pub same_nacked : nacked new ≡ nacked old

-- The retries of a configuration: none without one, or with a negative number.
abbrev pub retries : Option RetryConfig → ℕ
retries none = 0
retries (some config) = pos_part config.max_retries

-- The attempts for `z` retries.
allowed : ℤ → ℕ
allowed z = if ltb_ℤ (pos 0) z then pos_part (wrap_64 (z +ℤ pos 1)) else 1

allowed_eq : (z : ℤ) → pos_part z < 9223372036854775807 → allowed z ≡ pos_part z + 1
unfolding allowed
allowed_eq (pos n) h = rw (pos-+ℤ n 1, wrap_64-small (n + 1) (omega arith)) (ground arith)
allowed_eq (negsuc n) h = ground arith

allowed_le : (z : ℤ) → allowed z ≤ pos_part z + 1
unfolding allowed
allowed_le (pos n) = rw (pos-+ℤ n 1) (ground (arith, wrap_64_le (n + 1)))
allowed_le (negsuc n) = ground arith

pub max_attempts-retries :
    (c : Option RetryConfig) → retries c < 9223372036854775807 → max_attempts c ≡ retries c + 1
unfolding max_attempts allowed
max_attempts-retries none h = omega arith
max_attempts-retries (some config) h = allowed_eq config.max_retries h

pub max_attempts-retries_le : (c : Option RetryConfig) → max_attempts c ≤ retries c + 1
unfolding max_attempts allowed
max_attempts-retries_le none = omega arith
max_attempts-retries_le (some config) = allowed_le config.max_retries
