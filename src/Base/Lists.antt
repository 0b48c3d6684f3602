-- ===== src/Base/Lists.antt =====
-- Lists measured and indexed by native numbers, under the library's names.
use Prim.Native.Nat.{ℕ, zero, suc, ◌+◌, ◌≤◌, ◌<◌}
use mathlib.Core.Path.{◌≡◌, refl, ap, subst}
use mathlib.Core.Logic.{◌≢◌}
use mathlib.Core.List.{List, [], ◌∷◌, ◌++◌, map}
use mathlib.Core.Option.{Option, none, some, some-injective}
use native.Mathlib.Omega.{arith}

module _ {ℓ} {A : Type ℓ} where
  abbrev pub length : List A → ℕ
  length [] = 0
  length (x ∷ xs) = suc (length xs)

  abbrev pub get_elem? : List A → ℕ → Option A
  get_elem? [] i = none
  get_elem? (x ∷ xs) zero = some x
  get_elem? (x ∷ xs) (suc i) = get_elem? xs i

  -- A write out of bounds changes nothing.
  abbrev pub set : List A → ℕ → A → List A
  set [] i v = []
  set (x ∷ xs) zero v = v ∷ xs
  set (x ∷ xs) (suc i) v = x ∷ set xs i v

  -- The last element, behind one at the head.
  abbrev pub last_or : A → List A → A
  last_or a [] = a
  last_or a (x ∷ xs) = last_or x xs

  abbrev pub replicate : ℕ → A → List A
  replicate zero a = []
  replicate (suc n) a = a ∷ replicate n a

  abbrev pub All {κ} : (A → Type κ) → List A → Type κ
  All P [] = Unit
  All P (x ∷ xs) = P x × All P xs

module _ {ℓ} {A : Type ℓ} where
  pub length-append : (xs ys : List A) → length (xs ++ ys) ≡ length xs + length ys
  length-append [] ys = omega arith
  length-append (x ∷ xs) ys = omega (arith, length-append xs ys)

  pub length-map {κ} : {B : Type κ} (f : A → B) (xs : List A) → length (map f xs) ≡ length xs
  length-map f [] = refl
  length-map f (x ∷ xs) = ap suc (length-map f xs)

  pub All-append {κ} : (P : A → Type κ) (xs ys : List A) → All P xs → All P ys → All P (xs ++ ys)
  All-append P [] ys hx hy = hy
  All-append P (x ∷ xs) ys hx hy = (hx.0, All-append P xs ys hx.1 hy)

  pub get_elem?-lt : (xs : List A) (i : ℕ) → i < length xs → (a : A) × (get_elem? xs i ≡ some a)
  get_elem?-lt [] i h = elim h [ ]
  get_elem?-lt (x ∷ xs) zero h = (x, refl)
  get_elem?-lt (x ∷ xs) (suc i) h = get_elem?-lt xs i (omega arith)

  pub All-get_elem? {κ} :
      (P : A → Type κ) (xs : List A) (i : ℕ) {a : A} → All P xs → get_elem? xs i ≡ some a → P a
  All-get_elem? P [] i h e = cc
  All-get_elem? P (x ∷ xs) zero {a} h e = subst P (some-injective x a e) h.0
  All-get_elem? P (x ∷ xs) (suc i) h e = All-get_elem? P xs i h.1 e

  pub All-indices {κ} :
      (P : A → Type κ) (xs : List A)
      → ((i : ℕ) (a : A) → i < length xs → get_elem? xs i ≡ some a → P a)
      → All P xs
  All-indices P [] f = tt
  All-indices P (x ∷ xs) f =
      (f 0 x (omega arith) refl, All-indices P xs (λ i a lt e. f (suc i) a (omega arith) e))

  -- The sum of a weight over a list.
  unfoldable pub sum_of : (A → ℕ) → List A → ℕ
  sum_of w [] = 0
  sum_of w (x ∷ xs) = w x + sum_of w xs

  pub sum_of-append : (w : A → ℕ) (xs ys : List A) → sum_of w (xs ++ ys) ≡ sum_of w xs + sum_of w ys
  unfolding sum_of
  sum_of-append w [] ys = omega arith
  sum_of-append w (x ∷ xs) ys = omega (arith, sum_of-append w xs ys)

  pub sum_of-middle :
      (w : A → ℕ) (xs ys : List A) (x : A)
      → sum_of w (xs ++ x ∷ ys) ≡ w x + (sum_of w xs + sum_of w ys)
  unfolding sum_of
  sum_of-middle w xs ys x = omega (arith, sum_of-append w xs (x ∷ ys))

  pub sum_of-replicate : (w : A → ℕ) (n : ℕ) (x : A) → w x ≡ 0 → sum_of w (replicate n x) ≡ 0
  unfolding sum_of
  sum_of-replicate w zero x h = refl
  sum_of-replicate w (suc n) x h = omega (arith, h, sum_of-replicate w n x h)

module _ {ℓ κ} {A : Type ℓ} where
  -- P holds of each element with its position, from position i on.
  abbrev pub Indexed : (ℕ → A → Type κ) → ℕ → List A → Type κ
  Indexed P i [] = Unit
  Indexed P i (x ∷ xs) = P i x × Indexed P (suc i) xs

  pub Indexed-get_elem? :
      (P : ℕ → A → Type κ) (i k : ℕ) (xs : List A) {x : A}
      → Indexed P i xs
      → get_elem? xs k ≡ some x
      → P (i + k) x
  Indexed-get_elem? P i k [] h e = cc
  Indexed-get_elem? P i zero (y ∷ xs) {x} h e =
      subst (λ j. P j x) (omega arith) (subst (P i) (some-injective y x e) h.0)
  Indexed-get_elem? P i (suc k) (y ∷ xs) {x} h e =
      subst (λ j. P j x) (omega arith) (Indexed-get_elem? P (suc i) k xs h.1 e)

  pub Indexed-map :
      (P Q : ℕ → A → Type κ) (i : ℕ) (xs : List A)
      → ((j : ℕ) (x : A) → i ≤ j → P j x → Q j x)
      → Indexed P i xs
      → Indexed Q i xs
  Indexed-map P Q i [] f h = tt
  Indexed-map P Q i (x ∷ xs) f h =
      (f i x (omega arith) h.0, Indexed-map P Q (suc i) xs (λ j y le. f j y (omega arith)) h.1)

  -- A write at position i + k, which may change what holds of the others.
  pub Indexed-set :
      (P Q : ℕ → A → Type κ) (i k : ℕ) (xs : List A) (v : A)
      → ((j : ℕ) (x : A) → j ≢ i + k → P j x → Q j x)
      → Q (i + k) v
      → Indexed P i xs
      → Indexed Q i (set xs k v)
  Indexed-set P Q i k [] v f qv h = tt
  Indexed-set P Q i zero (x ∷ xs) v f qv h = (
    subst (λ j. Q j v) (omega arith) qv,
    Indexed-map P Q (suc i) xs (λ j y le. f j y (omega arith)) h.1,
  )
  Indexed-set P Q i (suc k) (x ∷ xs) v f qv h = (
    f i x (omega arith) h.0,
    Indexed-set P Q (suc i) k xs v (λ j y ne. f j y (omega arith))
        (subst (λ j. Q j v) (omega arith) qv) h.1,
  )

module _ {ℓ} {A : Type ℓ} where
  pub length-set : (xs : List A) (i : ℕ) (v : A) → length (set xs i v) ≡ length xs
  length-set [] i v = refl
  length-set (x ∷ xs) zero v = refl
  length-set (x ∷ xs) (suc i) v = ap suc (length-set xs i v)
