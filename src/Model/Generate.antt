-- ===== src/Model/Generate.antt =====
-- internal/model/generator.go: the generator of one worker. Its fields that never change are
-- `Settings`, the others `State`, which also holds the batch that is filled and counts the clock's
-- readings.
pub mod Attributes
pub mod Emit
pub mod Batch
pub mod Tree
use spangen.Base.{ℕ, List, Option, none, some}
use spangen.Base.Int.{ℤ}
use spangen.Base.State.{M}
use spangen.Model.{Source}
use spangen.Model.Catalog.{Catalog}
use spangen.Model.Spans.{Pdata}

pub record Settings (F : Type 0) : Type 0 where
  pub cat : Catalog F
  pub spans_per_trace_min : ℤ
  pub spans_per_trace_max : ℤ
  pub error_rate : F
  pub event_rate : F

-- `scopes` maps a service to the position of its resource in the batch.
pub record State (o : Source) (p : Pdata) : Type 0 where
  pub rng : o.Rng
  pub scopes : List (ℕ × ℕ)
  pub last_span_id : List ℕ
  pub td : p.Td
  pub clock : ℕ

module _ {o : Source} {p : Pdata} where
  -- A step of the random generator.
  abbrev pub on_rng : {A : Type 0} → M o.Rng A → M (State o p) A
  on_rng m s = elim (m s.rng) [ none ↦ none | some (a, r) ↦ some (a, record s { rng = r }) ]
