-- ===== src/Base/Int/Laws.antt =====
-- Where int64 arithmetic does not wrap.
use Prim.Native.Nat.{ℕ, ◌+◌, ◌-◌, ◌^◌, ◌≤◌, ◌<◌}
use mathlib.Core.Path.{◌≡◌, refl, ap, ◌∙◌}
use native.Mathlib.Omega.{arith}
use spangen.Base.Int.{ℤ, pos, negsuc, to_i64, ◌+i64◌, ◌-i64◌, ◌≤ℤ◌}

to_i64-small : (w : ℕ) → w < 2 ^ 63 → to_i64 w ≡ pos w
to_i64-small w h = ground arith

pub add_i64-pos : (a b : ℕ) → a + b < 2 ^ 63 → (pos a +i64 pos b) ≡ pos (a + b)
unfolding ◌+i64◌
add_i64-pos a b h = ap to_i64 (omega arith) ∙ to_i64-small (a + b) h

pub sub_i64-pos : (a b : ℕ) → b ≤ a → a < 2 ^ 63 → (pos a -i64 pos b) ≡ pos (a - b)
unfolding ◌-i64◌
sub_i64-pos a b le h = ap to_i64 (omega arith) ∙ to_i64-small (a - b) (omega arith)

-- An integer above a number is a number.
pub number_of : (k : ℕ) (x : ℤ) → pos k ≤ℤ x → (n : ℕ) × (x ≡ pos n) × (k ≤ n)
number_of k (pos n) h = (n, refl, omega arith)
number_of k (negsuc n) h = absurd (omega arith)
