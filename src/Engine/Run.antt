-- ===== src/Engine/Run.antt =====
-- engine.go: `Run`, where it starts the workers.
use spangen.Base.{
  ℕ, zero, suc, ◌+◌, ◌^◌, ◌<◌, ◌≡◌, refl, sym, ap, ◌∙◌, ◌≢◌, List, [], ◌∷◌, some, some-injective,
  length, get_elem?, if◌then◌else◌, arith,
}
use spangen.Base.Int.{ℤ, pos, pos_part, leb_ℤ}
use spangen.Config.{Config}
use spangen.Engine.Seed.{seed_for, seed_for_worker}

-- `runtime.GOMAXPROCS(0)` workers, unless there is a positive number of them.
unfoldable pub worker_count : ℤ → ℕ → ℕ
worker_count workers procs = if leb_ℤ workers (pos 0) then procs else pos_part workers

-- The loop that starts the workers, over the number of those left, from worker w on.
unfoldable pub worker_seeds : ℕ → ℕ → ℕ → ℕ → List ℕ
worker_seeds base host zero w = []
worker_seeds base host (suc left) w = seed_for base host w ∷ worker_seeds base host left (w + 1)

-- The seeds of a run's workers, in the order in which they are started.
unfoldable pub run_seeds : {F : Type 0} → Config F → ℕ → List ℕ
unfolding worker_count worker_seeds
run_seeds cfg procs = worker_seeds cfg.seed cfg.host_id (worker_count cfg.gen.workers procs) 0

worker_seeds-length : (base host left w : ℕ) → length (worker_seeds base host left w) ≡ left
unfolding worker_seeds
worker_seeds-length base host zero w = refl
worker_seeds-length base host (suc left) w = ap suc (worker_seeds-length base host left (w + 1))

pub run_seeds-length :
    {F : Type 0} (cfg : Config F) (procs : ℕ)
    → length (run_seeds cfg procs) ≡ worker_count cfg.gen.workers procs
unfolding run_seeds
run_seeds-length cfg procs =
    worker_seeds-length cfg.seed cfg.host_id (worker_count cfg.gen.workers procs) 0

worker_seeds-nth :
    (base host left w i : ℕ) {a : ℕ}
    → get_elem? (worker_seeds base host left w) i ≡ some a
    → (a ≡ seed_for base host (w + i)) × (i < left)
unfolding worker_seeds
worker_seeds-nth base host zero w i e = cc
worker_seeds-nth base host (suc left) w zero {a} e =
    (sym (some-injective _ a e) ∙ ap (seed_for base host) (omega arith), omega arith)
worker_seeds-nth base host (suc left) w (suc i) e =
    let (same, lt) = worker_seeds-nth base host left (w + 1) i e in
    (same ∙ ap (seed_for base host) (omega arith), omega arith)

-- `Run` starts as many workers as are configured, or one for each processor where that is not positive,
-- and no two of them have one seed; this for fewer than 2^64 workers.
pub run_seeds-distinct :
    {F : Type 0} (cfg : Config F) (procs : ℕ)
    → worker_count cfg.gen.workers procs < 2 ^ 64
    → (length (run_seeds cfg procs) ≡ worker_count cfg.gen.workers procs)
      × ((i j a b : ℕ)
          → get_elem? (run_seeds cfg procs) i ≡ some a
          → get_elem? (run_seeds cfg procs) j ≡ some b
          → i ≢ j
          → a ≢ b)
unfolding run_seeds
run_seeds-distinct cfg procs fits = (run_seeds-length cfg procs, apart)
  where
    apart :
        (i j a b : ℕ)
        → get_elem? (run_seeds cfg procs) i ≡ some a
        → get_elem? (run_seeds cfg procs) j ≡ some b
        → i ≢ j
        → a ≡ b
        → ⊥
    apart i j a b x y n same =
        let (e, lt) =
          worker_seeds-nth cfg.seed cfg.host_id (worker_count cfg.gen.workers procs) 0 i x in
        let (f, less) =
          worker_seeds-nth cfg.seed cfg.host_id (worker_count cfg.gen.workers procs) 0 j y in
        seed_for_worker cfg.seed cfg.host_id i j (omega (arith, fits)) (omega (arith, fits)) n (
          ap (seed_for cfg.seed cfg.host_id) (omega arith)
          ∙ sym e
          ∙ same
          ∙ f
          ∙ ap (seed_for cfg.seed cfg.host_id) (omega arith))
