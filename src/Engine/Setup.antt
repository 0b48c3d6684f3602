-- ===== src/Engine/Setup.antt =====
-- engine.go: `New`, and the start and the batches of a worker; generator.go: `NewGenerator`.
pub mod Batches
use spangen.Base.{ℕ, ◌-◌, ◌^◌, List, [], Option, none, some, codes, if◌then◌else◌}
use spangen.Base.Int.{ℤ, pos, negsuc, ◌+i64◌, ltb_ℤ}
use spangen.Base.State.{M}
use spangen.Config.{GenConfig, Config, effective_batch_size}
use spangen.Model.{Source}
use spangen.Model.Catalog.{Catalog}
use spangen.Model.Catalog.Build.{build_catalog}
use spangen.Model.Spans.{Pdata}
use spangen.Model.Generate.{Settings, State}
use spangen.Model.Generate.Emit.{no_span_id}
use spangen.Model.Generate.Tree.{fill_batch}

-- The arguments of `rate.NewLimiter`.
pub record Limiter (F : Type 0) : Type 0 where
  pub limit : F
  pub burst : ℤ

-- The fields of `Engine` that `New` sets, and what it sets the gauge TargetRate to.
pub record Engine (F : Type 0) : Type 0 where
  pub catalog : Catalog F
  pub batch : ℤ
  pub limiter : Option (Limiter F)
  pub target_rate : Option F

module _ (o : Source) where
  open o use {Float, Rng, lit, less, div, new_pcg}

  -- `make` panics on a number of services below zero.
  unfoldable pub shared_catalog : ℤ → ℕ → Option (Catalog Float)
  shared_catalog (pos n) seed = build_catalog o n (codes "spangen") (codes "1.0.0") seed
  shared_catalog (negsuc n) seed = none

  unfoldable pub start_rate : GenConfig Float → Float
  start_rate gen = if ltb_ℤ (pos 0) gen.ramp then div gen.rate (lit 100 0) else gen.rate

  unfoldable pub new_limiter : Config Float → Option (Limiter Float)
  unfolding start_rate effective_batch_size
  new_limiter cfg =
      if less (lit 0 0) cfg.gen.rate
      then some (record {
        limit = start_rate cfg.gen;
        burst = effective_batch_size cfg +i64 cfg.gen.spans_per_trace_max +i64 pos 64;
      })
      else none

  abbrev pub engine_on : Config Float → Option (Catalog Float) → Option (Engine Float)
  engine_on cfg none = none
  engine_on cfg (some cat) = some (record {
    catalog = cat;
    batch = effective_batch_size cfg;
    limiter = new_limiter cfg;
    target_rate = if less (lit 0 0) cfg.gen.rate then some (start_rate cfg.gen) else none;
  })

  unfoldable pub new_engine : Config Float → Option (Engine Float)
  unfolding shared_catalog
  new_engine cfg = engine_on cfg (shared_catalog cfg.gen.services cfg.seed)

  -- What the generator of a worker is given; the same for all workers.
  unfoldable pub generator_settings : Engine Float → GenConfig Float → Settings Float
  generator_settings e gen = record {
    cat = e.catalog;
    spans_per_trace_min = gen.spans_per_trace_min;
    spans_per_trace_max = gen.spans_per_trace_max;
    error_rate = gen.error_rate;
    event_rate = gen.event_rate;
  }

  module _ (p : Pdata) where
    -- A new generator, for a 64-bit seed, when the clock was read so many times.
    unfoldable pub new_generator : ℕ → ℕ → State o p
    new_generator seed clock = record {
      rng = new_pcg seed (2 ^ 64 - 1 - seed);
      scopes = [];
      last_span_id = no_span_id;
      td = p.new_traces;
      clock = clock;
    }

    -- A worker's next batch, in a new ptrace.Traces.
    unfoldable pub next_batch : Engine Float → GenConfig Float → M (State o p) ℕ
    unfolding generator_settings
    next_batch e gen s =
        fill_batch o p (generator_settings e gen) e.batch (record s { td = p.new_traces })
