-- ===== src/Engine/Stats.antt =====
-- engine.go: `sampleRate` and `logStatus`, over the counters that they read at their ticks.
pub mod Laws
use spangen.Base.{ℕ, ◌+◌, ◌-◌, ◌%◌, ◌^◌, List, [], ◌∷◌, map}
use spangen.Base.Int.{ℤ}
use spangen.Engine.{Counters}
use spangen.Model.{Source}

-- `cur-prev` on uint64.
abbrev pub sent_since : ℕ → ℕ → ℕ
sent_since prev cur = (cur + 2 ^ 64 - prev) % 2 ^ 64

-- The spans sent in each window, from the value of `sent` at the start on.
unfoldable pub windows : ℕ → List ℕ → List ℕ
windows prev [] = []
windows prev (cur ∷ samples) = sent_since prev cur ∷ windows cur samples

-- The arguments of the status line.
pub record Status (F : Type 0) : Type 0 where
  pub sent : ℕ
  pub rate : F
  pub generated : ℕ
  pub errors : ℕ

module _ (o : Source) where
  open o use {Float, lit, div, of_u64, seconds}

  -- What `sampleRate` sets the gauge AchievedRate to; a window has two seconds.
  unfoldable pub sample_rate : ℕ → List ℕ → List Float
  unfolding windows
  sample_rate prev samples = map (λ n. div (of_u64 n) (lit 2 0)) (windows prev samples)

  unfoldable pub status_of : ℕ → Counters → ℤ → Status Float
  status_of prev c dt = record {
    sent = c.sent;
    rate = div (of_u64 (sent_since prev c.sent)) (seconds dt);
    generated = c.generated;
    errors = c.errors;
  }

  -- The lines of `logStatus`, for the counters and the time since the tick before.
  unfoldable pub log_status : ℕ → List (Counters × ℤ) → List (Status Float)
  unfolding status_of
  log_status prev [] = []
  log_status prev ((c, dt) ∷ ticks) = status_of prev c dt ∷ log_status c.sent ticks
