-- ===== src/Model.antt =====
-- internal/model: the topology and the traces. What the package takes from math/rand/v2, from the
-- arithmetic of float64 and from the clock is the parameter `Source`.
pub mod Draw
pub mod Catalog
pub mod Spans
pub mod Generate
use spangen.Base.{ℕ, ◌<◌, Bool}
use spangen.Base.Int.{ℤ}

-- A generator of random numbers, the floats and the clock. `int_n n` is `rng.IntN(n)` for a positive n.
pub record Source : Type 1 where
  pub Float : Type 0
  pub lit : ℕ → ℕ → Float  -- m / 10 ^ e
  pub add : Float → Float → Float
  pub sub : Float → Float → Float
  pub mul : Float → Float → Float
  pub div : Float → Float → Float
  pub exp : Float → Float
  pub less : Float → Float → Bool
  pub leq : Float → Float → Bool
  pub of_i64 : ℤ → Float
  pub of_u64 : ℕ → Float
  pub seconds : ℤ → Float  -- `Seconds` of a time.Duration
  pub to_i64 : Float → ℤ
  pub Rng : Type 0
  pub new_pcg : ℕ → ℕ → Rng
  pub uint64 : Rng → ℕ × Rng
  pub uint32 : Rng → ℕ × Rng
  pub int_n : ℕ → Rng → ℕ × Rng
  pub float64 : Rng → Float × Rng
  pub norm_float64 : Rng → Float × Rng
  -- "IntN returns a number in the half-open interval [0,n)"
  pub int_n-lt : (n : ℕ) (r : Rng) → 0 < n → (int_n n r).0 < n
  pub now : ℕ → ℤ  -- the nanoseconds of the k-th call of time.Now
