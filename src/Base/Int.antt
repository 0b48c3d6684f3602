-- ===== src/Base/Int.antt =====
-- Go's signed integers: ℤ over the native numbers, under the library's names, and the wrap of int64.
pub mod Laws
use Prim.Native.Nat.{ℕ, suc, ◌+◌, ◌-◌, ◌/◌, ◌%◌, ◌^◌, ◌≤◌, ◌<◌}
use mathlib.Core.Bool.{Bool}
use spangen.Base.Tests.{ltb, leb, if◌then◌else◌}

-- `negsuc n` is -(n + 1).
pub data ℤ : Type 0 where
  pos : ℕ → ℤ
  negsuc : ℕ → ℤ

abbrev pub pos_part : ℤ → ℕ
pos_part (pos n) = n
pos_part (negsuc n) = 0

abbrev pub neg_part : ℤ → ℕ
neg_part (pos n) = 0
neg_part (negsuc n) = suc n

-- a - b, as an integer.
abbrev pub sub_ℕ : ℕ → ℕ → ℤ
sub_ℕ a b = if leb b a then pos (a - b) else negsuc (b - a - 1)

infix 50 ◌≤ℤ◌
abbrev pub ◌≤ℤ◌ : ℤ → ℤ → Type 0
a ≤ℤ b = pos_part a + neg_part b ≤ pos_part b + neg_part a

infix 50 ◌<ℤ◌
abbrev pub ◌<ℤ◌ : ℤ → ℤ → Type 0
a <ℤ b = pos_part a + neg_part b < pos_part b + neg_part a

abbrev pub ltb_ℤ : ℤ → ℤ → Bool
ltb_ℤ a b = ltb (pos_part a + neg_part b) (pos_part b + neg_part a)

abbrev pub leb_ℤ : ℤ → ℤ → Bool
leb_ℤ a b = leb (pos_part a + neg_part b) (pos_part b + neg_part a)

infixl 65 ◌+ℤ◌
-- The sum, without a wrap.
abbrev pub ◌+ℤ◌ : ℤ → ℤ → ℤ
a +ℤ b = sub_ℕ (pos_part a + pos_part b) (neg_part a + neg_part b)

-- Go's `a / n` for a positive n: it rounds to zero.
abbrev pub quot_ℤ : ℤ → ℕ → ℤ
quot_ℤ a n = sub_ℕ (pos_part a / n) (neg_part a / n)

-- The conversion `uint64(a)`.
abbrev pub to_u64 : ℤ → ℕ
to_u64 (pos n) = n % 2 ^ 64
to_u64 (negsuc n) = 2 ^ 64 - 1 - n % 2 ^ 64

-- The conversion `int64(w)` of a word below 2 ^ 64.
abbrev pub to_i64 : ℕ → ℤ
to_i64 w = if ltb w (2 ^ 63) then pos w else negsuc (2 ^ 64 - 1 - w)

infixl 65 ◌+i64◌ ◌-i64◌
-- `a + b` and `a - b` on int64, with the wrap.
unfoldable pub ◌+i64◌ : ℤ → ℤ → ℤ
a +i64 b = to_i64 ((to_u64 a + to_u64 b) % 2 ^ 64)

unfoldable pub ◌-i64◌ : ℤ → ℤ → ℤ
a -i64 b = to_i64 ((to_u64 a + 2 ^ 64 - to_u64 b) % 2 ^ 64)

-- Go's `a % n` for a positive n: it has the sign of a.
abbrev pub rem_ℤ : ℤ → ℕ → ℤ
rem_ℤ (pos a) n = pos (a % n)
rem_ℤ (negsuc a) n = sub_ℕ 0 (suc a % n)
