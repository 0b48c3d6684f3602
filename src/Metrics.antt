-- ===== src/Metrics.antt =====
-- internal/metrics/metrics.go: `New`, the collectors that it registers. The registry of the Prometheus
-- client is a parameter.
pub mod Laws
use spangen.Base.{ℕ, List, [], ◌∷◌, Option, none, some, Text, codes}
use spangen.Base.Int.{ℤ}

-- A bucket's bound m / 10^e is the pair (m, e).
pub data Kind : Type 0 where
  counter : Kind
  gauge : Kind
  histogram : List (ℕ × ℕ) → Kind

pub data Collector : Type 0 where
  named : (kind : Kind) (name help : Text) (labels : List (Text × Text)) → Collector
  go_collector : Collector
  process_collector : Collector

-- A new registry, and `MustRegister` on a collector that is built; `none` is a panic of either.
pub record Prometheus : Type 1 where
  pub Registry : Type 0
  pub new_registry : Registry
  pub must_register : Collector → Registry → Option Registry

abbrev pub const_labels : Text → List (Text × Text)
const_labels sink = (codes "sink", sink) ∷ []

abbrev pub buckets : List (ℕ × ℕ)
buckets =
    (1, 3)
    ∷ (25, 4)
    ∷ (5, 3)
    ∷ (1, 2)
    ∷ (25, 3)
    ∷ (5, 2)
    ∷ (1, 1)
    ∷ (25, 2)
    ∷ (5, 1)
    ∷ (1, 0)
    ∷ (25, 1)
    ∷ (5, 0)
    ∷ (10, 0)
    ∷ []

-- The collectors, in the order in which they are registered.
unfoldable pub collectors : Text → List Collector
collectors sink =
    named counter (codes "spangen_spans_generated_total") (codes "Spans generated.")
      (const_labels sink)
    ∷ named counter (codes "spangen_spans_sent_total")
        (codes "Spans successfully sent to the sink.") (const_labels sink)
    ∷ named counter (codes "spangen_batches_ok_total") (codes "Batches sent successfully.")
        (const_labels sink)
    ∷ named counter (codes "spangen_batches_error_total") (codes "Batches that failed to send.")
        (const_labels sink)
    ∷ named counter (codes "spangen_send_errors_total") (codes "Send errors (including retries).")
        (const_labels sink)
    ∷ named counter (codes "spangen_dropped_spans_total")
        (codes "Spans dropped after exhausting retries.") (const_labels sink)
    ∷ named gauge (codes "spangen_inflight_batches") (codes "Batches currently being sent.")
        (const_labels sink)
    ∷ named gauge (codes "spangen_target_rate_spans_per_sec")
        (codes "Current target rate (after ramp).") (const_labels sink)
    ∷ named gauge (codes "spangen_achieved_rate_spans_per_sec")
        (codes "Measured spans/sec over the last sample window.") (const_labels sink)
    ∷ named (histogram buckets) (codes "spangen_send_duration_seconds")
        (codes "Per-batch send latency.") (const_labels sink)
    ∷ go_collector
    ∷ process_collector
    ∷ []

module _ (p : Prometheus) where
  open p use {Registry}

  unfoldable pub register_all : List Collector → Registry → Option Registry
  register_all [] r = some r
  register_all (c ∷ cs) r = elim (p.must_register c r) [ none ↦ none | some u ↦ register_all cs u ]

  -- `New`; the replica is not used.
  unfoldable pub new_metrics : Text → ℤ → Option Registry
  unfolding register_all collectors
  new_metrics sink replica = register_all (collectors sink) p.new_registry
