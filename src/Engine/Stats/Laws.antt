-- ===== src/Engine/Stats/Laws.antt =====
-- The windows of the statistics add up.
use spangen.Base.{
  ℕ, ◌+◌, ◌-◌, ◌%◌, ◌^◌, ◌≤◌, ◌<◌, ◌≡◌, refl, ap, List, [], ◌∷◌, map, sum_of, last_or, arith,
}
use spangen.Model.{Source}
use spangen.Engine.Stats.{sent_since, windows, sample_rate}

-- Totals of spans sent, as the samples come: none falls, and none grows by 2^64 in one window.
unfoldable pub AreTotals : ℕ → List ℕ → Type 0
AreTotals first [] = Unit
AreTotals first (total ∷ totals) =
    (first ≤ total) × (total < first + 2 ^ 64) × AreTotals total totals

-- What a counter of 64 bits shows.
abbrev pub shown : ℕ → ℕ
shown total = total % 2 ^ 64

sent_since-shown : (a b : ℕ) → a ≤ b → b < a + 2 ^ 64 → sent_since (shown a) (shown b) ≡ b - a
sent_since-shown a b le small = omega arith

-- What the total grew by between two samples.
unfoldable pub growth : ℕ → List ℕ → List ℕ
growth first [] = []
growth first (total ∷ totals) = (total - first) ∷ growth total totals

windows-growth :
    (first : ℕ) (totals : List ℕ)
    → AreTotals first totals
    → windows (shown first) (map shown totals) ≡ growth first totals
unfolding windows AreTotals growth
windows-growth first [] h = refl
windows-growth first (total ∷ totals) h =
    rw (sent_since-shown first total h.0 h.1, windows-growth total totals h.2) refl

growth-sum :
    (first : ℕ) (totals : List ℕ)
    → AreTotals first totals
    → sum_of (λ n. n) (growth first totals) + first ≡ last_or first totals
unfolding growth AreTotals sum_of
growth-sum first [] h = omega arith
growth-sum first (total ∷ totals) h = omega (arith, h.0, growth-sum total totals h.2)

-- The rates that `sampleRate` shows are those of the true growth of the total, also where the 64-bit
-- counter wraps between two samples; and these add up to the growth from the first sample to the last,
-- so that each span that was sent counts in one window.
pub sample_rate-growth :
    (o : Source) (first : ℕ) (totals : List ℕ)
    → AreTotals first totals
    → (sample_rate o (shown first) (map shown totals)
        ≡ map (λ n. o.div (o.of_u64 n) (o.lit 2 0)) (growth first totals))
      × (sum_of (λ n. n) (growth first totals) + first ≡ last_or first totals)
unfolding sample_rate
sample_rate-growth o first totals h = (
  ap (map (λ n. o.div (o.of_u64 n) (o.lit 2 0))) (windows-growth first totals h),
  growth-sum first totals h,
)
