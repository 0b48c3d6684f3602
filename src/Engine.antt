-- ===== src/Engine.antt =====
-- internal/generate/engine.go: the engine's counters and the calls that it makes on the metrics, which its
-- parts share.
pub mod Setup
pub mod Run
pub mod Ramp
pub mod Stats
pub mod Send
pub mod Seed
pub mod Workers
pub mod Schedule
pub mod Launch
use spangen.Base.{ℕ, ◌+◌, ◌%◌, ◌^◌, Bool, true, false}

abbrev pub send_attempts : ℕ
send_attempts = 2

-- The three atomic.Uint64 of `Engine`.
pub record Counters : Type 0 where
  pub generated : ℕ
  pub sent : ℕ
  pub errors : ℕ

-- `Add` on an atomic.Uint64.
abbrev pub add_u64 : ℕ → ℕ → ℕ
add_u64 a n = (a + n) % 2 ^ 64

-- What a batch of n spans adds: to `sent` if the sink took it, to `errors` if it was dropped.
unfoldable pub deliver : Bool → ℕ → Counters → Counters
deliver true n c = record c { sent = add_u64 c.sent n }
deliver false n c = record c { errors = add_u64 c.errors n }

-- The calls on the collectors of `metrics.Metrics`, with the number of spans that they are given.
pub data Call : Type 0 where
  inflight_inc inflight_dec observe_duration batches_ok batches_err send_errors : Call
  spans_generated spans_sent dropped : ℕ → Call
