-- ===== src/Spaces/Ranges.antt =====
-- spaces/spaces.go: how many bytes `RangeGet` returns.
use gframework.Base.{
  ℕ, ◌≤◌, ◌≡◌, refl, Bool-cases, inl, inr, Option, none, some, List, length, take, leb,
  if◌then◌else◌, arith,
}
use gframework.Errors.{GoError, is, wrap, Result, ok, err}
use gframework.Spaces.{Body, copy_n}

-- The first `n` bytes of the body, or all of it if it is shorter.
pub data IsStart (n : ℕ) (body : Body) : Result (List ℕ) → Type 0 where
  cut : n ≤ length body.bytes → IsStart n body (ok (take n body.bytes))
  whole : length body.bytes ≤ n → IsStart n body (ok body.bytes)
  broken :
      (e cause : GoError)
      → body.failure ≡ some cause
      → length body.bytes ≤ n
      → IsStart n body (err e)

failure-IsStart :
    (n : ℕ) (body : Body) (failure : Option GoError)
    → body.failure ≡ failure
    → length body.bytes ≤ n
    → IsStart n body (elim failure [
      | none ↦ ok body.bytes
      | some e ↦ if is e "io.EOF" then ok body.bytes else err (wrap "read range body" e)
    ])
failure-IsStart n body none failed short = whole short
failure-IsStart n body (some e) failed short = elim (Bool-cases (is e "io.EOF")) [
  | inl eof ↦ rw eof (whole short)
  | inr other ↦ rw other (broken (wrap "read range body" e) e failed short)
]

pub copy_n-IsStart : (n : ℕ) (body : Body) → IsStart n body (copy_n n body)
unfolding copy_n
copy_n-IsStart n body = elim (Bool-cases (leb n (length body.bytes))) [
  | inl enough ↦ rw enough (cut (ground arith))
  | inr short ↦ rw short (failure-IsStart n body body.failure refl (ground arith))
]
