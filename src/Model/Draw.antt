-- ===== src/Model/Draw.antt =====
-- Draws from the random generator, as steps of code whose state is the generator.
use spangen.Base.{
  ℕ, zero, suc, ◌<◌, ◌≡◌, List, [], ◌∷◌, none, some, All, length, get_elem?, get_elem?-lt,
  All-get_elem?, arith,
}
use spangen.Base.State.{M, ◌>>=◌, or_panic, Returns, returned, bind, implies}
use spangen.Model.{Source}

-- The call returns; nothing is said of the result.
abbrev pub Any : {A S : Type 0} → A → S → Type 0
Any a s = Unit

pub All-Any : {A : Type 0} (xs : List A) → All (λ _. Unit {0}) xs
All-Any [] = tt
All-Any (x ∷ xs) = (tt, All-Any xs)

module _ (o : Source) where
  open o use {Float, Rng, int_n, float64, norm_float64, uint32, uint64, int_n-lt}

  -- `rng.IntN(n)`, which panics unless n is positive.
  unfoldable pub draw : ℕ → M Rng ℕ
  draw zero r = none
  draw (suc n) r = some (int_n (suc n) r)

  -- `xs[rng.IntN(len(xs))]`
  unfoldable pub pick : {A : Type 0} → List A → M Rng A
  pick xs = do i ← draw (length xs); or_panic (get_elem? xs i)

  unfoldable pub draw_float : M Rng Float
  draw_float r = some (float64 r)

  unfoldable pub draw_norm : M Rng Float
  draw_norm r = some (norm_float64 r)

  unfoldable pub draw_u32 : M Rng ℕ
  draw_u32 r = some (uint32 r)

  unfoldable pub draw_u64 : M Rng ℕ
  draw_u64 r = some (uint64 r)

  pub Any-float : (r : Rng) → Returns Any (draw_float r)
  unfolding draw_float
  Any-float r = returned tt

  pub Any-norm : (r : Rng) → Returns Any (draw_norm r)
  unfolding draw_norm
  Any-norm r = returned tt

  pub Any-u32 : (r : Rng) → Returns Any (draw_u32 r)
  unfolding draw_u32
  Any-u32 r = returned tt

  pub Any-u64 : (r : Rng) → Returns Any (draw_u64 r)
  unfolding draw_u64
  Any-u64 r = returned tt

  pub draw-Returns : (n : ℕ) (r : Rng) → 0 < n → Returns (λ i _. i < n) (draw n r)
  unfolding draw
  draw-Returns zero r h = absurd (omega arith)
  draw-Returns (suc n) r h = returned (int_n-lt (suc n) r h)

  pub pick-Returns :
      {A : Type 0} (P : A → Type 0) (xs : List A) (r : Rng)
      → 0 < length xs
      → All P xs
      → Returns (λ a _. P a) (pick xs r)
  unfolding pick
  pick-Returns {A} P xs r h all =
      bind (draw (length xs)) _ r (draw-Returns (length xs) r h)
        λ i t lt. in_range i t (get_elem?-lt xs i lt)
    where
      in_range :
          (i : ℕ) (t : Rng)
          → (a : A) × (get_elem? xs i ≡ some a)
          → Returns (λ a _. P a) (or_panic (get_elem? xs i) t)
      in_range i t (a, e) = rw e (returned (All-get_elem? P xs i all e))

  -- The element, with its position.
  pub pick_at-Returns :
      {A : Type 0} (xs : List A) (r : Rng)
      → 0 < length xs
      → Returns (λ a _. (i : ℕ) × (i < length xs) × (get_elem? xs i ≡ some a)) (pick xs r)
  unfolding pick
  pick_at-Returns {A} xs r h =
      bind (draw (length xs)) _ r (draw-Returns (length xs) r h)
        λ i t lt. in_range i t lt (get_elem?-lt xs i lt)
    where
      in_range :
          (i : ℕ) (t : Rng)
          → i < length xs
          → (a : A) × (get_elem? xs i ≡ some a)
          → Returns
              (λ a _. (i : ℕ) × (i < length xs) × (get_elem? xs i ≡ some a))
              (or_panic (get_elem? xs i) t)
      in_range i t lt (a, e) = rw e (returned (i, lt, e))

  pub Any-draw : (n : ℕ) (r : Rng) → 0 < n → Returns Any (draw n r)
  Any-draw n r h = implies (draw-Returns n r h) λ _ _ _. tt

  pub Any-pick : {A : Type 0} (xs : List A) (r : Rng) → 0 < length xs → Returns Any (pick xs r)
  Any-pick xs r h = pick-Returns (λ _. Unit) xs r h (All-Any xs)
