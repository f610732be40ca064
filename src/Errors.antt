-- ===== src/Errors.antt =====
-- Go's error values as the repository builds them: package-level `errors.New` variables, errors of
-- the drivers, and `fmt.Errorf` with one or more `%w`. `is` and `as_pg` are `errors.Is` and
-- `errors.As` of the standard library, which walk the wrapped errors in preorder.
use gframework.Base.{String, Bool, false, ◌||◌, Option, none, some, or_else, str_eq, ℕ}

pub data GoError : Type 0 where
  sentinel : String → GoError  -- a package-level variable, by its name
  pg_error : String → GoError  -- *pgconn.PgError, by its Code
  foreign : String → GoError  -- any other error without a cause
  wrap : String → GoError → GoError  -- fmt.Errorf("text: %w", err)
  join : GoError → GoError → GoError  -- fmt.Errorf("%w: %w", a, b)

-- errors.Is(err, target) for a package-level target
unfoldable pub is : GoError → String → Bool
is (sentinel name) target = str_eq name target
is (pg_error code) target = false
is (foreign text) target = false
is (wrap text e) target = is e target
is (join a b) target = is a target || is b target

-- errors.As(err, &pgErr), and the Code of what it finds
unfoldable pub as_pg : GoError → Option String
as_pg (sentinel name) = none
as_pg (pg_error code) = some code
as_pg (foreign text) = none
as_pg (wrap text e) = as_pg e
as_pg (join a b) = or_else (as_pg a) (as_pg b)

-- How a call ends: it returns a Go `error` (nil is `none`), or it panics.
pub data Outcome : Type 0 where
  returned : Option GoError → Outcome
  panicked : String → Outcome

-- 1 for a call that returned nil, 0 for any other end.
abbrev pub successes : Outcome → ℕ
successes (panicked v) = 0
successes (returned none) = 1
successes (returned (some e)) = 0

-- The code that `errors.As` finds in an error that may be nil.
abbrev pub code_of : Option GoError → Option String
code_of none = none
code_of (some e) = as_pg e

-- A Go pair of a value and an error, where exactly one is set.
pub data Result {ℓ} (A : Type ℓ) : Type ℓ where
  ok : A → Result A
  err : GoError → Result A
