-- ===== src/Base/Int.antt =====
-- Signed integers over the native numbers, and Go's 64-bit `int` and `time.Duration`, which wrap.
use Prim.Native.Nat.{ℕ, suc, ◌+◌, ◌-◌, ◌*◌, ◌≤◌, ◌<◌, ◌/◌, ◌%◌}
use mathlib.Core.Path.{◌≡◌}
use mathlib.Core.Bool.{Bool}
use native.Mathlib.Omega.{arith}
use gframework.Base.Tests.{ltb, leb, ◌==◌, if◌then◌else◌}

-- `negsuc n` is -(n + 1).
pub data ℤ : Type 0 where
  pos : ℕ → ℤ
  negsuc : ℕ → ℤ

abbrev pub pos_part : ℤ → ℕ
pos_part (pos n) = n
pos_part (negsuc n) = 0

abbrev pub neg_part : ℤ → ℕ
neg_part (pos n) = 0
neg_part (negsuc n) = suc n

-- a - b, as an integer.
abbrev pub sub_ℕ : ℕ → ℕ → ℤ
sub_ℕ a b = if leb b a then pos (a - b) else negsuc (b - a - 1)

infixl 65 ◌+ℤ◌ ◌-ℤ◌
infixl 70 ◌*ℤ◌
infix 50 ◌≤ℤ◌ ◌<ℤ◌
unfoldable pub ◌+ℤ◌ : ℤ → ℤ → ℤ
a +ℤ b = sub_ℕ (pos_part a + pos_part b) (neg_part a + neg_part b)

unfoldable pub ◌-ℤ◌ : ℤ → ℤ → ℤ
a -ℤ b = sub_ℕ (pos_part a + neg_part b) (neg_part a + pos_part b)

unfoldable pub ◌*ℤ◌ : ℤ → ℤ → ℤ
a *ℤ b =
    sub_ℕ (pos_part a * pos_part b + neg_part a * neg_part b)
      (pos_part a * neg_part b + neg_part a * pos_part b)

abbrev pub ◌≤ℤ◌ : ℤ → ℤ → Type 0
a ≤ℤ b = pos_part a + neg_part b ≤ pos_part b + neg_part a

abbrev pub ◌<ℤ◌ : ℤ → ℤ → Type 0
a <ℤ b = pos_part a + neg_part b < pos_part b + neg_part a

abbrev pub ltb_ℤ : ℤ → ℤ → Bool
ltb_ℤ a b = ltb (pos_part a + neg_part b) (pos_part b + neg_part a)

abbrev pub leb_ℤ : ℤ → ℤ → Bool
leb_ℤ a b = leb (pos_part a + neg_part b) (pos_part b + neg_part a)

abbrev pub eqb_ℤ : ℤ → ℤ → Bool
eqb_ℤ a b = (pos_part a + neg_part b) == (pos_part b + neg_part a)

-- Go's built-in min.
abbrev pub min_ℤ : ℤ → ℤ → ℤ
min_ℤ a b = if ltb_ℤ b a then b else a

-- The residue of a number modulo 2^64, and the 64-bit integer with these bits.
abbrev word_64 : ℤ → ℕ
word_64 (pos n) = n % 18446744073709551616
word_64 (negsuc n) = 18446744073709551615 - n % 18446744073709551616

abbrev signed_64 : ℕ → ℤ
signed_64 w = if ltb w 9223372036854775808 then pos w else negsuc (18446744073709551615 - w)

-- What an operation on Go's `int`, `int64` or `time.Duration` keeps of its result.
unfoldable pub wrap_64 : ℤ → ℤ
wrap_64 z = signed_64 (word_64 z)

pub wrap_64-small : (n : ℕ) → n < 9223372036854775808 → wrap_64 (pos n) ≡ pos n
unfolding wrap_64
wrap_64-small n h = let same : n % 18446744073709551616 ≡ n = omega arith in rw same (ground arith)

-- A sum with one, of a number that leaves room for it.
pub wrap_64-suc : (n : ℕ) → n < 9223372036854775807 → pos_part (wrap_64 (pos (suc n))) ≡ suc n
wrap_64-suc n h = rw (wrap_64-small (suc n) (omega arith)) (omega arith)

pub wrap_64_le : (n : ℕ) → pos_part (wrap_64 (pos n)) ≤ n
unfolding wrap_64
wrap_64_le n = ground arith

abbrev minus : ℕ → ℤ
minus n = sub_ℕ 0 n

-- Division towards zero.
abbrev pub quot_ℤ : ℤ → ℤ → ℤ
quot_ℤ (pos a) (pos b) = pos (a / b)
quot_ℤ (pos a) (negsuc b) = minus (a / suc b)
quot_ℤ (negsuc a) (pos b) = minus (suc a / b)
quot_ℤ (negsuc a) (negsuc b) = pos (suc a / suc b)

pub pos-+ℤ : (a b : ℕ) → pos a +ℤ pos b ≡ pos (a + b)
unfolding ◌+ℤ◌
pos-+ℤ a b = ground arith

pub pos_-ℤ : (a b : ℕ) → b ≤ a → pos a -ℤ pos b ≡ pos (a - b)
unfolding ◌-ℤ◌
pos_-ℤ a b h = ground arith
