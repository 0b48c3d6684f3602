-- ===== src/Base/Decimal.antt =====
-- `strconv.Atoi`: a sign, digits, and the range of int64.
use spangen.Base.Tests.{◌==◌, ltb, leb, if◌then◌else◌}
use spangen.Base.Strings.{Text}
use spangen.Base.Int.{ℤ, pos, negsuc}
use Prim.Native.Nat.{ℕ, zero, suc, ◌+◌, ◌-◌, ◌*◌, ◌^◌, ◌<◌}
use mathlib.Core.Path.{◌≡◌, refl}
use mathlib.Core.Logic.{◌≢◌}
use mathlib.Core.Bool.{Bool, true, ◌&&◌}
use mathlib.Core.Option.{Option, none, some}
use mathlib.Core.List.{[], ◌∷◌}
use native.Mathlib.Omega.{arith}

abbrev pub is_digit : ℕ → Bool
is_digit c = leb b'0' c && leb c b'9'

unfoldable pub all_digits : Text → Bool
all_digits [] = true
all_digits (c ∷ s) = is_digit c && all_digits s

-- The number that digits spell behind n.
unfoldable pub value : ℕ → Text → ℕ
value n [] = n
value n (c ∷ s) = value (n * 10 + (c - b'0')) s

-- One or more digits.
unfoldable pub digits_value : Text → Option ℕ
unfolding all_digits value
digits_value [] = none
digits_value (c ∷ s) = if all_digits (c ∷ s) then some (value 0 (c ∷ s)) else none

unfoldable pub signed_pos : Option ℕ → Option ℤ
signed_pos none = none
signed_pos (some n) = if ltb n (2 ^ 63) then some (pos n) else none

unfoldable pub signed_neg : Option ℕ → Option ℤ
signed_neg none = none
signed_neg (some zero) = some (pos 0)
signed_neg (some (suc n)) = if ltb n (2 ^ 63) then some (negsuc n) else none

unfoldable pub atoi : Text → Option ℤ
unfolding digits_value signed_pos signed_neg
atoi [] = none
atoi (c ∷ s) =
    if c == b'-'
    then signed_neg (digits_value s)
    else if c == b'+'
    then signed_pos (digits_value s)
    else signed_pos (digits_value (c ∷ s))

-- Digits are read as the number that they spell, if it fits an int.
pub atoi-digits :
    (s : Text) → s ≢ [] → all_digits s ≡ true → value 0 s < 2 ^ 63 → atoi s ≡ some (pos (value 0 s))
unfolding atoi
atoi-digits [] n d h = absurd (n refl)
atoi-digits (c ∷ s) n d h = ground arith
