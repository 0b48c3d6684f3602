-- ===== src/Engine/Launch/Laws.antt =====
-- The workers that `Run` starts on the engine of a valid configuration.
use spangen.Base.{
  ◌⊎◌, All, ℕ, ◌+◌, ◌*◌, ◌^◌, ◌≤◌, ◌<◌, ◌≡◌, refl, ap, ◌∙◌, subst, ◌≢◌, List, map, length,
  length-map, some, sum_of, arith,
}
use spangen.Base.Int.{pos, pos_part}
use spangen.Config.{Config, effective_batch_size}
use spangen.Config.Validate.{IsValid}
use spangen.Model.{Source}
use spangen.Model.Spans.{Pdata}
use spangen.Model.Generate.{State}
use spangen.Model.Generate.Tree.Fill.{fill_batch-AreTraces}
use spangen.Engine.Send.{log_period}
use spangen.Engine.Workers.{Reach, System}
use spangen.Engine.Workers.Invariant.{held}
use spangen.Engine.Workers.Limit.{in_flight}
use spangen.Engine.Run.{worker_count, run_seeds, run_seeds-length}
use spangen.Engine.Setup.{Engine, new_engine, generator_settings, new_generator, next_batch}
use spangen.Engine.Setup.Batches.{IsInt64, IsEngineOf, new_engine-IsEngineOf}
use spangen.Engine.Schedule.{Environment, Setup, Turn, Workers, schedule}
use spangen.Engine.Schedule.Follows.{IsContext, Fills, pc}
use spangen.Engine.Schedule.Refines.{schedule-Reach, schedule-lt-max}
use spangen.Engine.Launch.{has_limiter, with_traces, setup_of, launch}
use spangen.Engine.Schedule.{returned}
use spangen.Engine.Schedule.Turns.{turns}
use spangen.Engine.Schedule.Rounds.{FillsUp}
use spangen.Engine.Schedule.Capped.{schedule-ends}

FillsUp-Fills : {T G : Type 0} (u : Setup T G) (size : ℕ) → FillsUp u size → Fills u size
FillsUp-Fills u size f = record {
  fills = λ g. let (r, given, same) = f.fills g in (r, given, omega (arith, same));
}

module _ (o : Source) (p : Pdata) where
  open o use {Float}

  module _ (env : Environment p.Td) (c : IsContext env) (cfg : Config Float) where
    -- The batches of an engine's workers have its batch size.
    setup_of-FillsUp :
        (e : Engine Float) (size : ℕ)
        → IsEngineOf o cfg e
        → effective_batch_size cfg ≡ pos size
        → FillsUp (setup_of o p cfg e) size
    unfolding setup_of next_batch
    setup_of-FillsUp e size is batch = record { fills = given }
      where
        given :
            (g : State o p)
            → (r : ℕ × p.Td × State o p) × ((setup_of o p cfg e).fill g ≡ some r) × (r.0 ≡ size)
        given g =
            let (t, log, done, held, count, traces) =
              fill_batch-AreTraces o p (generator_settings o e cfg.gen) is.runnable e.batch
                (record g { td = p.new_traces }) p.read-new_traces in
            ((pos_part e.batch, t.td, t), ap (with_traces o p) done, rw (is.batch, batch) refl)

    setup_of-period :
        (e : Engine Float) (size : ℕ)
        → IsEngineOf o cfg e
        → effective_batch_size cfg ≡ pos size
        → 0 < size
        → size * 20 < 2 ^ 64
        → log_period env.outside (setup_of o p cfg e).batch ≢ 0
    unfolding setup_of
    setup_of-period e size is batch some_span small =
        rw (is.batch, batch) (omega (arith, some_span, small))

    -- For a valid configuration `New` returns an engine. Whatever the sink, the limiter and the run context
    -- do and however the workers that `Run` then starts take turns, they go on without a panic, and come to
    -- a state that the step relation reaches from its start: with the workers at the same places, the same
    -- counters, and the run context done in both or in neither. This over a run context of which nothing
    -- takes the end back, and for a batch size other than zero with twentyfold less than 2^64.
    pub launch-Reach :
        (size procs clock : ℕ) (w : env.outside.World) (xs : List Turn)
        → IsValid cfg
        → IsInt64 cfg
        → effective_batch_size cfg ≡ pos size
        → 0 < size
        → size * 20 < 2 ^ 64
        → (e : Engine Float) × (new_engine o cfg ≡ some e)
          × (end : Workers env (setup_of o p cfg e)) × (s : System) × (schedule env
                (setup_of o p cfg e)
                xs
                (launch o p env cfg e procs clock w)
              ≡ some end)
          × Reach cfg.gen.max_spans
              (has_limiter o p e.limiter)
              (worker_count cfg.gen.workers procs)
              s
          × (s.workers ≡ map pc end.locals)
          × (s.shared.counters ≡ end.state.counters)
          × (s.shared.cancelled ≡ env.outside.cancelled end.state.world)
    unfolding launch setup_of
    launch-Reach size procs clock w xs valid fits batch some_span small =
        let (e, made, is) = new_engine-IsEngineOf o cfg valid fits in
        let (end, s, run, reach, shape, counters, flag) =
          schedule-Reach env (setup_of o p cfg e) size c
            (FillsUp-Fills (setup_of o p cfg e) size (setup_of-FillsUp e size is batch))
            (setup_of-period e size is batch some_span small)
            (map (λ seed. new_generator o p seed clock) (run_seeds cfg procs)) w xs in
        (
          e,
          made,
          end,
          s,
          run,
          subst (λ k. Reach cfg.gen.max_spans (has_limiter o p e.limiter) k s)
              (length-map (λ seed. new_generator o p seed clock) (run_seeds cfg procs)
                ∙ run_seeds-length cfg procs)
              reach,
          shape,
          counters,
          flag,
        )

    -- The counters behind a run on an engine of the configuration.
    pub run-lt-max :
        (e : Engine Float) (size procs clock : ℕ) (w : env.outside.World) (xs : List Turn)
        → IsEngineOf o cfg e
        → effective_batch_size cfg ≡ pos size
        → 0 < size
        → size * 20 < 2 ^ 64
        → length xs * size < 2 ^ 64
        → (end : Workers env (setup_of o p cfg e)) × (schedule env
              (setup_of o p cfg e)
              xs
              (launch o p env cfg e procs clock w)
            ≡ some end)
          × (end.state.counters.sent + end.state.counters.errors + sum_of held (map pc end.locals)
              ≤ end.state.counters.generated)
          × ((cfg.gen.max_spans ≡ 0)
              ⊎ (end.state.counters.sent
                    + end.state.counters.errors
                    + sum_of in_flight (map pc end.locals)
                  < cfg.gen.max_spans))
    unfolding launch setup_of
    run-lt-max e size procs clock w xs is batch some_span small few =
        schedule-lt-max env (setup_of o p cfg e) size c
          (FillsUp-Fills (setup_of o p cfg e) size (setup_of-FillsUp e size is batch))
          (setup_of-period e size is batch some_span small)
          (map (λ seed. new_generator o p seed clock) (run_seeds cfg procs)) w xs few

    -- Under a schedule of so few events that the counter of generated spans does not wrap, that counter then
    -- covers the spans that the code counted as sent, those that it counted as dropped and those in the
    -- workers' hands; and those sent, dropped and in flight stay below the span limit, unless it is 0. This for a
    -- configuration and a run context as before.
    pub launch-lt-max :
        (size procs clock : ℕ) (w : env.outside.World) (xs : List Turn)
        → IsValid cfg
        → IsInt64 cfg
        → effective_batch_size cfg ≡ pos size
        → 0 < size
        → size * 20 < 2 ^ 64
        → length xs * size < 2 ^ 64
        → (e : Engine Float) × (new_engine o cfg ≡ some e)
          × (end : Workers env (setup_of o p cfg e)) × (schedule env
                (setup_of o p cfg e)
                xs
                (launch o p env cfg e procs clock w)
              ≡ some end)
          × (end.state.counters.sent + end.state.counters.errors + sum_of held (map pc end.locals)
              ≤ end.state.counters.generated)
          × ((cfg.gen.max_spans ≡ 0)
              ⊎ (end.state.counters.sent
                    + end.state.counters.errors
                    + sum_of in_flight (map pc end.locals)
                  < cfg.gen.max_spans))
    launch-lt-max size procs clock w xs valid fits batch some_span small few =
        let (e, made, is) = new_engine-IsEngineOf o cfg valid fits in
        let (end, run, covered, below) =
          run-lt-max e size procs clock w xs is batch some_span small few in
        (e, made, end, run, covered, below)

    -- A run with a span limit on an engine of the configuration.
    pub run-ends :
        (e : Engine Float) (size rounds procs clock : ℕ) (w : env.outside.World) (xs : List Turn)
        → IsEngineOf o cfg e
        → effective_batch_size cfg ≡ pos size
        → 0 < size
        → size * 20 < 2 ^ 64
        → length xs * size < 2 ^ 64
        → 0 < cfg.gen.max_spans
        → cfg.gen.max_spans ≤ rounds * size
        → ((i : ℕ) → i < worker_count cfg.gen.workers procs → 9 * rounds + 5 ≤ turns i xs)
        → (end : Workers env (setup_of o p cfg e)) × (schedule env
              (setup_of o p cfg e)
              xs
              (launch o p env cfg e procs clock w)
            ≡ some end)
          × (length end.locals ≡ worker_count cfg.gen.workers procs)
          × All (λ l. l ≡ returned) end.locals
    unfolding launch setup_of
    run-ends e size rounds procs clock w xs is batch some_span small few limit enough fair =
        let gens = map (λ seed. new_generator o p seed clock) (run_seeds cfg procs) in
        let count : length gens ≡ worker_count cfg.gen.workers procs =
          length-map (λ seed. new_generator o p seed clock) (run_seeds cfg procs)
          ∙ run_seeds-length cfg procs in
        let (end, run, same, ended) =
          schedule-ends env (setup_of o p cfg e) size c (setup_of-FillsUp e size is batch)
            (setup_of-period e size is batch some_span small) limit rounds gens w xs enough few
            (λ i lt. fair i (omega (arith, lt, count))) in
        (end, run, same ∙ count, ended)

    -- A run with a span limit, of which so many batches are enough, ends: for a configuration and a run context
    -- as before, under every schedule that gives each worker nine turns for each of these batches and five
    -- more, the workers, as many as are configured, have all returned, whatever the sink and the limiter do.
    -- This as long as the counter of generated spans does not wrap.
    pub launch-ends :
        (size rounds procs clock : ℕ) (w : env.outside.World) (xs : List Turn)
        → IsValid cfg
        → IsInt64 cfg
        → effective_batch_size cfg ≡ pos size
        → 0 < size
        → size * 20 < 2 ^ 64
        → length xs * size < 2 ^ 64
        → 0 < cfg.gen.max_spans
        → cfg.gen.max_spans ≤ rounds * size
        → ((i : ℕ) → i < worker_count cfg.gen.workers procs → 9 * rounds + 5 ≤ turns i xs)
        → (e : Engine Float) × (new_engine o cfg ≡ some e)
          × (end : Workers env (setup_of o p cfg e)) × (schedule env
                (setup_of o p cfg e)
                xs
                (launch o p env cfg e procs clock w)
              ≡ some end)
          × (length end.locals ≡ worker_count cfg.gen.workers procs)
          × All (λ l. l ≡ returned) end.locals
    launch-ends size rounds procs clock w xs valid fits batch some_span small few limit enough
          fair =
        let (e, made, is) = new_engine-IsEngineOf o cfg valid fits in
        let (end, run, count, ended) =
          run-ends e size rounds procs clock w xs is batch some_span small few limit enough fair in
        (e, made, end, run, count, ended)
