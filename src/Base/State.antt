-- ===== src/Base/State.antt =====
-- Code that changes a state and may panic: `none` is the panic. With `do`, and the rule by which the
-- proofs go through a `do` block.
use Prim.Native.Nat.{ℕ, zero, suc}
use mathlib.Core.Path.{◌≡◌, refl}
use mathlib.Core.Option.{Option, none, some}
use mathlib.Core.List.{List, [], ◌∷◌}
use native.Mathlib.Omega.{arith}
use spangen.Base.Lists.{All, length}

abbrev pub M : Type 0 → Type 0 → Type 0
M S A = S → Option (A × S)

abbrev pub pure : {S A : Type 0} → A → M S A
pure a s = some (a, s)

abbrev pub panic : {S A : Type 0} → M S A
panic s = none

infixl 5 ◌>>=◌ ◌>>◌
abbrev pub ◌>>=◌ : {S A B : Type 0} → M S A → (A → M S B) → M S B
◌>>=◌ m k s = elim (m s) [ none ↦ none | some (a, t) ↦ k a t ]

abbrev pub ◌>>◌ : {S B : Type 0} → M S (Unit {0}) → M S B → M S B
m >> k = m >>= λ _. k

-- The value of an option, or the panic of an index out of range.
abbrev pub or_panic : {S A : Type 0} → Option A → M S A
or_panic none s = none
or_panic (some a) s = some (a, s)

-- The call returns, with a result and a state of which P holds.
pub data Returns {S A : Type 0} (P : A → S → Type 0) : Option (A × S) → Type 0 where
  returned : {a : A} {s : S} → P a s → Returns P (some (a, s))

module _ {S A B : Type 0} {P : A → S → Type 0} {Q : B → S → Type 0} where
  pub bind :
      (m : M S A) (k : A → M S B) (s : S)
      → Returns P (m s)
      → ((a : A) (t : S) → P a t → Returns Q (k a t))
      → Returns Q ((m >>= k) s)
  bind m k s r f = go (m s) r
    where
      go :
          (o : Option (A × S))
          → Returns P o
          → Returns Q (elim o [ none ↦ none | some (a, t) ↦ k a t ])
      go none x = elim x [ ]
      go (some (a, t)) (returned p) = f a t p

module _ {S A : Type 0} {P Q : A → S → Type 0} where
  pub implies : {o : Option (A × S)} → Returns P o → ((a : A) (s : S) → P a s → Q a s) → Returns Q o
  implies (returned p) f = returned (f _ _ p)

pub Returns-some :
    {S A : Type 0} {P : A → S → Type 0} {o : Option (A × S)}
    → Returns P o
    → (a : A) × (s : S) × (o ≡ some (a, s)) × P a s
Returns-some (returned {a} {s} p) = (a, s, refl, p)

-- A value that an option holds.
pub or_panic-Returns :
    {S A : Type 0} {o : Option A} (s : S) (a : A)
    → o ≡ some a
    → Returns (λ b t. (b ≡ a) × (t ≡ s)) (or_panic o s)
or_panic-Returns s a e = rw e (returned (refl, refl))

-- `for i := 0; i < k; i++ { out = append(out, m) }`
unfoldable pub collect : {S A : Type 0} → ℕ → M S A → M S (List A)
collect zero m = pure []
collect (suc k) m = do a ← m; rest ← collect k m; pure (a ∷ rest)

pub collect-Returns :
    {S A : Type 0} {P : A → Type 0} (k : ℕ) (m : M S A) (s : S)
    → ((t : S) → Returns (λ a _. P a) (m t))
    → Returns (λ xs _. All P xs × (length xs ≡ k)) (collect k m s)
unfolding collect
collect-Returns zero m s h = returned (tt, refl)
collect-Returns (suc k) m s h = bind m _ s (h s) λ a t pa.
    bind (collect k m) _ t (collect-Returns k m t h)
      λ xs u pxs. returned ((pa, pxs.0), omega (arith, pxs.1))
