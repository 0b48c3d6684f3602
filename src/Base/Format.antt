-- ===== src/Base/Format.antt =====
-- The verbs %d and %x of fmt, on numbers below 2 ^ 64.
use Prim.Native.Nat.{ℕ, zero, suc, ◌+◌, ◌-◌, ◌/◌, ◌%◌}
use mathlib.Core.List.{[], ◌∷◌}
use spangen.Base.Tests.{◌==◌, ltb, if◌then◌else◌}
use spangen.Base.Strings.{Text}

-- The digits of n in a base, before out. Sixty-four digits are enough for any word in any base.
unfoldable pub digits : (ℕ → ℕ) → ℕ → ℕ → ℕ → Text → Text
digits show b zero n out = out
digits show b (suc fuel) n out =
    let rest = digits show b fuel (n / b) (show (n % b) ∷ out) in
    if n / b == 0 then show (n % b) ∷ out else rest

unfoldable pub hex_digit : ℕ → ℕ
hex_digit d = if ltb d 10 then b'0' + d else b'a' + (d - 10)

-- `%d`
unfoldable pub decimal : ℕ → Text
unfolding digits
decimal n = digits (λ d. b'0' + d) 10 64 n []

-- `%x`
unfoldable pub hex : ℕ → Text
unfolding digits hex_digit
hex n = digits hex_digit 16 64 n []
