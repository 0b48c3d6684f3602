-- ===== src/Engine/Setup/Batches.antt =====
-- The engine of a valid configuration, and the batches of its workers.
use spangen.Base.{
  ℕ, ◌+◌, ◌^◌, ◌<◌, ◌≡◌, refl, ap, ◌∙◌, subst, Option, none, some, All, codes, length, Bool-cases,
  inl, inr, arith,
}
use spangen.Base.Int.{pos, pos_part, ◌≤ℤ◌, ◌+i64◌}
use spangen.Base.Int.Laws.{number_of, add_i64-pos}
use spangen.Base.State.{Returns, returned, collect, collect-Returns}
use spangen.Config.{Config, effective_batch_size}
use spangen.Config.Validate.{IsValid}
use spangen.Model.{Source}
use spangen.Model.Catalog.Build.Links.{build_catalog-IsTopology}
use spangen.Model.Spans.{Pdata}
use spangen.Model.Generate.{State}
use spangen.Model.Generate.Tree.Traces.{IsRunnable}
use spangen.Model.Generate.Tree.Fill.{fill_batch-AreTraces}
use spangen.Engine.Setup.{
  Limiter, Engine, shared_catalog, new_limiter, engine_on, new_engine, generator_settings,
  new_generator, next_batch,
}

-- Go's ints are below 2 ^ 63: the longest trace of a configuration, as a number.
pub record IsInt64 {F : Type 0} (cfg : Config F) : Type 0 where
  pub longest : pos_part cfg.gen.spans_per_trace_max < 2 ^ 63

module _ (o : Source) where
  open o use {Float}

  -- An engine on which the workers run: with the batch size and the limiter of its configuration.
  pub record IsEngineOf (cfg : Config Float) (e : Engine Float) : Type 0 where
    pub services : ℕ
    pub shortest : ℕ
    pub longest : ℕ
    pub runnable : IsRunnable services shortest longest (generator_settings o e cfg.gen)
    pub count : cfg.gen.services ≡ pos services
    pub batch : e.batch ≡ effective_batch_size cfg
    pub limiter : e.limiter ≡ new_limiter o cfg

  -- For a valid configuration `New` does not panic, and gives an engine with a topology of as many
  -- services as are configured, the batch size of the sink that is chosen, and a range of trace sizes
  -- with which the workers run.
  pub new_engine-IsEngineOf :
      (cfg : Config Float)
      → IsValid cfg
      → IsInt64 cfg
      → (e : Engine Float) × (new_engine o cfg ≡ some e) × IsEngineOf cfg e
  unfolding new_engine generator_settings shared_catalog
  new_engine-IsEngineOf cfg valid fits =
      let (n, count, some_service) = number_of 1 cfg.gen.services valid.services in
      let (shortest, min, low) = number_of 1 cfg.gen.spans_per_trace_min valid.range.0 in
      let (longest, max, up) =
        number_of shortest cfg.gen.spans_per_trace_max
          (subst (λ x. x ≤ℤ cfg.gen.spans_per_trace_max) min valid.range.1) in
      let (cat, built, topology) =
        build_catalog-IsTopology o n (codes "spangen") (codes "1.0.0") cfg.seed in
      (
        _,
        ap (engine_on o cfg) (ap (λ s. shared_catalog o s cfg.seed) count ∙ built),
        record {
          services = n;
          shortest = shortest;
          longest = longest;
          runnable = record {
            topology = topology;
            some_service = some_service;
            min = min;
            max = max;
            range = (low, up, subst (λ x. pos_part x < 2 ^ 63) max fits.longest);
          };
          count = count;
          batch = refl;
          limiter = refl;
        },
      )

  -- Whether `WaitN` may be called for n spans: without a limiter, or with a burst that they do not exceed.
  abbrev pub Fits : ℕ → Option (Limiter Float) → Type 0
  Fits n none = Unit
  Fits n (some l) = pos n ≤ℤ l.burst

  new_limiter-Fits :
      (cfg : Config Float) (size longest : ℕ)
      → effective_batch_size cfg ≡ pos size
      → cfg.gen.spans_per_trace_max ≡ pos longest
      → size + longest + 64 < 2 ^ 63
      → Fits size (new_limiter o cfg)
  unfolding new_limiter
  new_limiter-Fits cfg size longest batch max fits =
      elim (Bool-cases (o.less (o.lit 0 0) cfg.gen.rate)) [
        | inl e ↦ rw (e, batch, max, burst) (omega arith)
        | inr e ↦ rw e tt
      ]
    where
      burst : (pos size +i64 pos longest +i64 pos 64) ≡ pos (size + longest + 64)
      burst = rw (add_i64-pos size longest (omega arith)) (add_i64-pos (size + longest) 64 fits)

  -- A worker with a new generator, for any seed, makes its batches without a panic. Each has exactly
  -- the batch size, and where there is a limiter, no more spans than its burst; this for a batch size
  -- that is not negative, as long as the sum that gives the burst does not wrap.
  pub next_batch-Fits :
      (p : Pdata) (cfg : Config Float) (e : Engine Float) (k seed clock size : ℕ)
      → IsEngineOf cfg e
      → effective_batch_size cfg ≡ pos size
      → size + pos_part cfg.gen.spans_per_trace_max + 64 < 2 ^ 63
      → Returns
          (λ counts _. All (λ n. (n ≡ size) × Fits n e.limiter) counts × (length counts ≡ k))
          (collect k (next_batch o p e cfg.gen) (new_generator o p seed clock))
  unfolding next_batch
  next_batch-Fits p cfg e k seed clock size is batch fits =
      collect-Returns k (next_batch o p e cfg.gen) (new_generator o p seed clock) one
    where
      one :
          (s : State o p)
          → Returns (λ n _. (n ≡ size) × Fits n e.limiter) (next_batch o p e cfg.gen s)
      one s =
          let (t, log, done, held, count, traces) =
            fill_batch-AreTraces o p (generator_settings o e cfg.gen) is.runnable e.batch
              (record s { td = p.new_traces }) p.read-new_traces in
          rw (done, is.batch, batch, is.limiter)
            (returned (
              refl,
              new_limiter-Fits cfg size is.longest batch is.runnable.max
                  (subst (λ x. size + pos_part x + 64 < 2 ^ 63) is.runnable.max fits),
            ))
