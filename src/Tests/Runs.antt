-- ===== src/Tests/Runs.antt =====
-- The set-up of the engine, the ramp and the statistics at concrete inputs.
use spangen.Base.{
  ◌≢◌, ◌≤◌, ltb, leb, zero, suc, ◌-◌, ◌*◌, ◌/◌, sum_of, last_or, get_elem?, true, false, ℕ, ◌+◌,
  ◌^◌, ◌≡◌, refl, List, [], ◌∷◌, some, All, length, text_eq, codes, arith,
}
use native.Mathlib.Nat.{le-div_iff_mul-le}
use spangen.Base.Int.{ℤ, pos, negsuc, pos_part, ◌≤ℤ◌, ◌<ℤ◌}
use spangen.Base.State.{Returns, collect}
use spangen.Config.{GenConfig, Config, effective_batch_size}
use spangen.Engine.Setup.{Engine, new_limiter, generator_settings, new_generator, next_batch}
use spangen.Engine.Setup.Batches.{IsEngineOf, Fits, next_batch-Fits}
use spangen.Engine.Run.{worker_count, run_seeds, run_seeds-distinct}
use spangen.Engine.Ramp.{raised, ramp_loop, ramp_limits}
use spangen.Engine.Ramp.Laws.{IsOrdered, IsWithin, ramp_limits-IsWithin}
use spangen.Engine.Stats.{sample_rate}
use spangen.Engine.Stats.Laws.{AreTotals, growth, sample_rate-growth}
use spangen.Tests.Models.{counting, lists, one_service, one_service-IsRunnable}
use spangen.Tests.Openings.{rotating, three}

-- One service, three spans in a request, at a rate of ten a second.
abbrev pub small : Config ℕ
small = record {
  sink = codes "otlp";
  replica_index = pos 0;
  seed = 7;
  host_id = 9;
  metrics = record { addr = codes ":8888" };
  gen = record {
    rate = 10;
    ramp = pos 0;
    duration = pos 0;
    max_spans = 0;
    workers = pos 3;
    services = pos 1;
    spans_per_trace_min = pos 1;
    spans_per_trace_max = pos 2;
    error_rate = 5;
    event_rate = 0;
  };
  ch = rotating;
  otlp = record three { spans_per_request = pos 3 };
}

-- An engine of that configuration, with a topology written out.
abbrev small_engine : Engine ℕ
small_engine = record {
  catalog = one_service.cat;
  batch = effective_batch_size small;
  limiter = new_limiter counting small;
  target_rate = some 10;
}

small_engine-IsEngineOf : IsEngineOf counting small small_engine
unfolding generator_settings
small_engine-IsEngineOf = record {
  services = 1;
  shortest = 1;
  longest = 2;
  runnable = one_service-IsRunnable;
  count = refl;
  batch = refl;
  limiter = refl;
}

next_batch-Fits_example :
    Returns
      (λ counts _.
        All (λ n. (n ≡ 3) × Fits counting n (new_limiter counting small)) counts
        × (length counts ≡ 2))
      (collect 2
        (next_batch counting lists small_engine small.gen)
        (new_generator counting lists 7 0))
unfolding effective_batch_size text_eq
next_batch-Fits_example =
    next_batch-Fits counting lists small small_engine 2 7 0 3 small_engine-IsEngineOf refl
      (omega arith)

counting-IsOrdered : IsOrdered counting
counting-IsOrdered = record {
  irreflexive = λ x. ground arith;
  hundredth = λ t h. ground arith;
  fraction = λ t x h e. at_zero t x e;
  over = λ ramp elapsed h le. reached ramp elapsed h le;
}
  where
    at_zero : (t x : ℕ) → leb 1 x ≡ false → ltb t (t * x) ≡ false
    at_zero t zero e = ground arith
    at_zero t (suc x) e = ground arith

    reached :
        (ramp elapsed : ℤ)
        → pos 0 <ℤ ramp
        → ramp ≤ℤ elapsed
        → leb 1 (pos_part elapsed / pos_part ramp) ≡ true
    reached (pos b) (pos a) h le =
        shown ((le-div_iff_mul-le {k = b} {x = 1} {y = a} (omega arith)).1 (omega arith))
      where
        shown : 1 ≤ a / b → leb 1 (a / b) ≡ true
        shown h = ground arith
    reached (pos b) (negsuc a) h le = absurd (omega arith)
    reached (negsuc b) elapsed h le = absurd (omega arith)

-- Four ticks of a ramp of two nanoseconds to a rate of ten.
abbrev ramping : GenConfig ℕ
ramping = record small.gen { ramp = pos 2 }

abbrev ticks : List ℤ
ticks = pos 0 ∷ pos 1 ∷ pos 2 ∷ pos 3 ∷ []

ramp_limits-IsWithin_example :
    All (IsWithin counting counting-IsOrdered 10) (ramp_limits counting ramping ticks)
    × ((i : ℕ) (elapsed : ℤ) (from : ℕ)
        → pos 0 <ℤ pos 2
        → get_elem? ticks i ≡ some elapsed
        → pos 2 ≤ℤ elapsed
        → last_or from (ramp_limits counting ramping ticks) ≡ 10)
ramp_limits-IsWithin_example = ramp_limits-IsWithin counting counting-IsOrdered ramping ticks refl

ramp_run : ramp_limits counting ramping ticks ≡ 0 ∷ 0 ∷ 10 ∷ []
unfolding ramp_limits ramp_loop raised
ramp_run = refl

-- A counter that wraps in the second window.
sample_rate-growth_example :
    (sample_rate counting (2 ^ 64 - 7) ((2 ^ 64 - 3) ∷ 5 ∷ []) ≡ 2 ∷ 4 ∷ [])
    × (sum_of (λ n. n) (growth (2 ^ 64 - 7) ((2 ^ 64 - 3) ∷ (2 ^ 64 + 5) ∷ [])) + (2 ^ 64 - 7)
        ≡ 2 ^ 64 + 5)
unfolding AreTotals growth
sample_rate-growth_example =
    sample_rate-growth counting (2 ^ 64 - 7) ((2 ^ 64 - 3) ∷ (2 ^ 64 + 5) ∷ [])
      (omega arith, omega arith, (omega arith, omega arith, tt))

run_seeds-distinct_example :
    (length (run_seeds small 8) ≡ 3)
    × ((i j a b : ℕ)
        → get_elem? (run_seeds small 8) i ≡ some a
        → get_elem? (run_seeds small 8) j ≡ some b
        → i ≢ j
        → a ≢ b)
unfolding worker_count
run_seeds-distinct_example = run_seeds-distinct small 8 (omega arith)
