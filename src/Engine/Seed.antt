-- ===== src/Engine/Seed.antt =====
-- engine.go: `seedFor`.
use spangen.Base.{ℕ, ◌+◌, ◌*◌, ◌%◌, ◌^◌, ◌<◌, ◌≡◌, sym, ap, ◌∙◌, ◌≢◌, bit_xor, arith}
use spangen.Base.Word.{
  u64_mod, xor-lt-pow, xor-cancel_left, xor-cancel_right, xor_comm, xor_assoc, xor_self, zero-xor,
  xor-xor_left, mul-cancel_seed,
}

-- `uint64(worker+1) * 2654435761`
unfoldable pub worker_term : ℕ → ℕ
worker_term worker = (worker + 1) % 2 ^ 64 * 2654435761 % 2 ^ 64

unfoldable pub seed_for : ℕ → ℕ → ℕ → ℕ
unfolding worker_term
seed_for base host worker = bit_xor (bit_xor base host) (worker_term worker)

-- Two workers of a pod never have one seed.
pub seed_for_worker :
    (base host w v : ℕ)
    → w + 1 < u64_mod
    → v + 1 < u64_mod
    → w ≢ v
    → seed_for base host w ≢ seed_for base host v
unfolding seed_for
seed_for_worker base host w v hw hv n e =
    let same = xor-cancel_left (bit_xor base host) (worker_term w) (worker_term v) e in
    absurd (
      omega (
        arith,
        mul-cancel_seed ((w + 1) % u64_mod) ((v + 1) % u64_mod) (omega arith) (omega arith) same,
      ))

-- Workers of one number in pods with different host identifiers have different seeds.
pub seed_for_host : (base h k w : ℕ) → h ≢ k → seed_for base h w ≢ seed_for base k w
unfolding seed_for
seed_for_host base h k w n e = n (
    xor-cancel_left base h k (xor-cancel_right (worker_term w) (bit_xor base h) (bit_xor base k) e))

worker_term-lt : (w : ℕ) → worker_term w < u64_mod
unfolding worker_term
worker_term-lt w = omega arith

seed_for-lt : (base host w : ℕ) → base < u64_mod → host < u64_mod → seed_for base host w < u64_mod
unfolding seed_for
seed_for-lt base host w hb hh =
    xor-lt-pow 64 (bit_xor base host) (worker_term w) (xor-lt-pow 64 base host hb hh)
      (worker_term-lt w)

xor_back : (a x t : ℕ) → bit_xor (bit_xor a (bit_xor a (bit_xor x t))) t ≡ x
xor_back a x t =
    ap (λ y. bit_xor y t) (xor-xor_left a (bit_xor x t))
    ∙ xor_assoc x t t
    ∙ ap (bit_xor x) (xor_self t)
    ∙ xor_comm x 0
    ∙ zero-xor x

-- Across pods the seeds are not distinct: for every pod and every two different workers there is another
-- pod, with a host identifier of its own, in which the second worker has the seed of the first; this for
-- fewer than 2^64 workers.
pub seed_for_clash :
    (base host w v : ℕ)
    → base < u64_mod
    → host < u64_mod
    → w + 1 < u64_mod
    → v + 1 < u64_mod
    → w ≢ v
    → (k : ℕ) × (k < u64_mod) × (k ≢ host) × (seed_for base k v ≡ seed_for base host w)
unfolding seed_for
seed_for_clash base host w v hb hh hw hv n =
    let k : ℕ = bit_xor base (bit_xor (seed_for base host w) (worker_term v)) in
    let same : seed_for base k v ≡ seed_for base host w =
      xor_back base (seed_for base host w) (worker_term v) in
    (
      k,
      xor-lt-pow 64 base _ hb (
          xor-lt-pow 64 (seed_for base host w) (worker_term v) (seed_for-lt base host w hb hh)
            (worker_term-lt v)),
      λ own. seed_for_worker base host w v hw hv n (sym same ∙ ap (λ h. seed_for base h v) own),
      same,
    )
