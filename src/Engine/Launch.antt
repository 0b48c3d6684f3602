-- ===== src/Engine/Launch.antt =====
-- engine.go: `New`, then `Run` with its workers, each with a generator of its own and the batches that it makes,
-- under a schedule.
pub mod Laws
use spangen.Base.{
  ℕ, zero, suc, ◌+◌, ◌*◌, ◌%◌, ◌^◌, ◌≤◌, ◌<◌, ◌≡◌, refl, sym, ap, ◌∙◌, subst, ◌≢◌, List, [], ◌∷◌,
  map, length, length-map, Option, none, some, Bool, true, false, sum_of, arith,
}
use spangen.Base.Int.{ℤ, pos, pos_part}
use spangen.Config.{Config, effective_batch_size}
use spangen.Config.Validate.{IsValid}
use spangen.Model.{Source}
use spangen.Model.Spans.{Pdata}
use spangen.Model.Generate.{State}
use spangen.Model.Generate.Tree.Fill.{fill_batch-AreTraces}
use spangen.Engine.Send.{log_period}
use spangen.Engine.Workers.{Reach, System}
use spangen.Engine.Workers.Invariant.{held}
use spangen.Engine.Workers.Limit.{in_flight}
use spangen.Engine.Run.{worker_count, run_seeds, run_seeds-length}
use spangen.Engine.Setup.{
  Engine, Limiter, new_engine, generator_settings, new_generator, next_batch,
}
use spangen.Engine.Setup.Batches.{IsInt64, IsEngineOf, new_engine-IsEngineOf}
use spangen.Engine.Schedule.{Environment, Setup, Turn, Workers, start_all, schedule}
use spangen.Engine.Schedule.Follows.{IsContext, Fills, pc}
use spangen.Engine.Schedule.Refines.{schedule-Reach, schedule-lt-max}

module _ (o : Source) (p : Pdata) where
  open o use {Float}

  abbrev pub has_limiter : Option (Limiter Float) → Bool
  has_limiter none = false
  has_limiter (some l) = true

  abbrev pub with_traces : Option (ℕ × State o p) → Option (ℕ × p.Td × State o p)
  with_traces none = none
  with_traces (some (n, g)) = some (n, g.td, g)

  -- What the workers of an engine have in common.
  unfoldable pub setup_of : Config Float → Engine Float → Setup p.Td (State o p)
  setup_of cfg e = record {
    fill = λ g. with_traces (next_batch o p e cfg.gen g);
    max = cfg.gen.max_spans;
    limited = has_limiter e.limiter;
    batch = e.batch;
  }

  -- The workers that `Run` starts, with a generator each; so many reads of the clock are behind them.
  unfoldable pub launch :
      (env : Environment p.Td) (cfg : Config Float) (e : Engine Float)
      → ℕ
      → ℕ
      → env.outside.World
      → Workers env (setup_of cfg e)
  launch env cfg e procs clock w =
      start_all env (setup_of cfg e)
        (map (λ seed. new_generator o p seed clock) (run_seeds cfg procs)) w
