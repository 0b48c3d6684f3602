-- ===== src/Base/Word/Xor.antt =====
-- `bit_xor` at every width, from the recursion on binary digits that it stands for.
use Prim.Native.Nat.{
  ℕ, zero, suc, ◌+◌, ◌*◌, ◌/◌, ◌%◌, ◌^◌, ◌≤◌, ◌<◌, bit_xor, digits, differ, bit_xor-bitwise,
}
use mathlib.Core.Path.{◌≡◌, refl, sym, ◌∙◌, ap}
use native.Mathlib.Nat.{le_refl, pow-suc}
use native.Mathlib.Omega.{arith}

-- The digits of `a ^ b`, on fuel.
abbrev xor_digits : ℕ → ℕ → ℕ → ℕ
xor_digits fuel a b = digits (λ y. y) differ fuel a b

xor_digits_zero : (fuel b : ℕ) → xor_digits fuel 0 b ≡ b
xor_digits_zero zero b = refl
xor_digits_zero (suc fuel) b = refl

-- Fuel beyond the number `a` changes nothing.
xor_digits_fuel :
    (a b : ℕ) (few many : ℕ) → (a ≤ few) × (a ≤ many) → xor_digits few a b ≡ xor_digits many a b
xor_digits_fuel zero b few many h = xor_digits_zero few b ∙ sym (xor_digits_zero many b)
xor_digits_fuel (suc a) b zero many h = absurd (omega (arith, h.0))
xor_digits_fuel (suc a) b (suc few) zero h = absurd (omega (arith, h.1))
xor_digits_fuel (suc a) b (suc few) (suc many) h =
    rw (xor_digits_fuel (suc a / 2) (b / 2) few many (omega (arith, h.0), omega (arith, h.1))) refl

differ_bits : (x y : ℕ) → x < 2 → y < 2 → differ x y ≡ (x + y) % 2
differ_bits zero y p q = omega arith
differ_bits (suc zero) zero p q = refl
differ_bits (suc zero) (suc zero) p q = refl
differ_bits (suc zero) (suc (suc y)) p q = absurd (omega arith)
differ_bits (suc (suc x)) y p q = absurd (omega arith)

-- The lowest digit, and the rest.
pub bit_xor_step : (a b : ℕ) → bit_xor a b ≡ bit_xor (a / 2) (b / 2) * 2 + (a + b) % 2
bit_xor_step zero b = simp bit_xor-bitwise (omega arith)
bit_xor_step (suc a) b = simp bit_xor-bitwise (
    omega (
      arith,
      xor_digits_fuel (suc a / 2) (b / 2) a (suc a / 2) (omega arith, le_refl _),
      differ_bits (suc a % 2) (b % 2) (omega arith) (omega arith),
    ))

pub zero-xor : (b : ℕ) → bit_xor 0 b ≡ b
zero-xor b = simp bit_xor-bitwise

-- On words of w bits the result is a word of w bits.
pub xor-lt-pow : (w a b : ℕ) → a < 2 ^ w → b < 2 ^ w → bit_xor a b < 2 ^ w
xor-lt-pow zero zero b p q = omega (arith, zero-xor b)
xor-lt-pow zero (suc a) b p q = absurd (omega arith)
xor-lt-pow (suc w) a b p q = omega (
  arith,
  pow-suc 2 w,
  bit_xor_step a b,
  xor-lt-pow w (a / 2) (b / 2) (omega (arith, pow-suc 2 w)) (omega (arith, pow-suc 2 w)),
)

-- The laws go from `a / 2` to `a`: the first argument bounds the number of digits.
comm_fuel : (n a b : ℕ) → a + b ≤ n → bit_xor a b ≡ bit_xor b a
comm_fuel n zero zero h = refl
comm_fuel zero zero (suc b) h = absurd (omega arith)
comm_fuel zero (suc a) b h = absurd (omega arith)
comm_fuel (suc n) zero (suc b) h =
    omega (
      arith,
      bit_xor_step 0 (suc b),
      bit_xor_step (suc b) 0,
      comm_fuel n 0 (suc b / 2) (omega arith),
    )
comm_fuel (suc n) (suc a) b h = omega (
  arith,
  bit_xor_step (suc a) b,
  bit_xor_step b (suc a),
  comm_fuel n (suc a / 2) (b / 2) (omega arith),
)

pub xor_comm : (a b : ℕ) → bit_xor a b ≡ bit_xor b a
xor_comm a b = comm_fuel (a + b) a b (le_refl _)

self_fuel : (n a : ℕ) → a ≤ n → bit_xor a a ≡ 0
self_fuel n zero h = refl
self_fuel zero (suc a) h = absurd (omega arith)
self_fuel (suc n) (suc a) h =
    omega (arith, bit_xor_step (suc a) (suc a), self_fuel n (suc a / 2) (omega arith))

pub xor_self : (a : ℕ) → bit_xor a a ≡ 0
xor_self a = self_fuel a a (le_refl _)

step-half : (a b : ℕ) → bit_xor a b / 2 ≡ bit_xor (a / 2) (b / 2)
step-half a b = omega (arith, bit_xor_step a b)

step-bit : (a b : ℕ) → bit_xor a b % 2 ≡ (a + b) % 2
step-bit a b = omega (arith, bit_xor_step a b)

assoc_fuel : (n a b c : ℕ) → a ≤ n → bit_xor (bit_xor a b) c ≡ bit_xor a (bit_xor b c)
assoc_fuel n zero b c h = rw (zero-xor b, zero-xor (bit_xor b c))
assoc_fuel zero (suc a) b c h = absurd (omega arith)
assoc_fuel (suc n) (suc a) b c h =
    bit_xor_step (bit_xor (suc a) b) c
    ∙ rw (step-half (suc a) b, assoc_fuel n (suc a / 2) (b / 2) (c / 2) (omega arith))
        (sym (
          bit_xor_step (suc a) (bit_xor b c)
          ∙ rw (step-half b c) (omega (arith, step-bit (suc a) b, step-bit b c))))

pub xor_assoc : (a b c : ℕ) → bit_xor (bit_xor a b) c ≡ bit_xor a (bit_xor b c)
xor_assoc a b c = assoc_fuel a a b c (le_refl _)

-- `a ^ ·` undoes itself, so it is injective.
pub xor-xor_left : (a b : ℕ) → bit_xor a (bit_xor a b) ≡ b
xor-xor_left a b = rw (← xor_assoc a a b, xor_self a) (zero-xor b)

pub xor-cancel_left : (a b c : ℕ) → bit_xor a b ≡ bit_xor a c → b ≡ c
xor-cancel_left a b c e = sym (xor-xor_left a b) ∙ ap (bit_xor a) e ∙ xor-xor_left a c

pub xor-cancel_right : (a b c : ℕ) → bit_xor b a ≡ bit_xor c a → b ≡ c
xor-cancel_right a b c e = xor-cancel_left a b c (xor_comm a b ∙ e ∙ xor_comm c a)
