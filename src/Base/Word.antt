-- ===== src/Base/Word.antt =====
-- 64-bit and 32-bit words: what the hashes and the seeds need of `^` and of an odd multiplier.
mod Xor
pub use Xor.*
use Prim.Native.Nat.{ℕ, ◌+◌, ◌*◌, ◌%◌, ◌^◌, ◌<◌}
use mathlib.Core.Path.{◌≡◌}
use native.Mathlib.Omega.{arith}

abbrev pub u64_mod : ℕ
u64_mod = 2 ^ 64

abbrev pub u32_mod : ℕ
u32_mod = 2 ^ 32

-- An odd multiplier has an inverse modulo 2 ^ 64: the FNV-1a prime, and that of the worker seeds.
module _ (a b : ℕ) (ha : a < u64_mod) (hb : b < u64_mod) where
  pub mul-cancel_fnv : (a * 1099511628211) % u64_mod ≡ (b * 1099511628211) % u64_mod → a ≡ b
  mul-cancel_fnv e = omega arith

  pub mul-cancel_seed : (a * 2654435761) % u64_mod ≡ (b * 2654435761) % u64_mod → a ≡ b
  mul-cancel_seed e = omega arith
