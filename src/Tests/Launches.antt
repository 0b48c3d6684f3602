-- ===== src/Tests/Launches.antt =====
-- The workers that `Run` starts, under schedules, at concrete inputs.
use spangen.Base.{
  All, ◌++◌, ◌⊎◌, replicate, ℕ, zero, suc, ◌+◌, ◌-◌, ◌*◌, ◌≤◌, ◌<◌, ◌≡◌, refl, List, [], ◌∷◌, map,
  length, Option, none, some, Bool, true, false, not, ◌==◌, ltb, sum_of, text_eq, arith,
}
use spangen.Base.Int.{pos}
use spangen.Config.{Config, effective_batch_size}
use spangen.Config.Validate.{IsValid, validate, one_of, validate-IsValid}
use spangen.Engine.{Counters, deliver}
use spangen.Engine.Setup.{Engine, new_engine}
use spangen.Engine.Setup.Batches.{IsInt64}
use spangen.Engine.Run.{worker_count}
use spangen.Engine.Workers.{Reach, System}
use spangen.Engine.Workers.Invariant.{held}
use spangen.Engine.Workers.Limit.{in_flight}
use spangen.Engine.Schedule.{
  Environment, Local, returned, Setup, Turn, work, other, Workers, start_all, happen, schedule,
}
use spangen.Engine.Schedule.Follows.{IsContext, pc}
use spangen.Engine.Schedule.Turns.{turns}
use spangen.Engine.Schedule.Ending.{schedule-returned}
use spangen.Engine.Launch.{has_limiter, setup_of, launch}
use spangen.Engine.Launch.Laws.{launch-Reach, launch-lt-max, launch-ends}
use spangen.Tests.Models.{counting, lists}
use spangen.Tests.Runs.{small}

-- A run with so many ticks left, over a sink that takes every second batch.
abbrev ticking : {T : Type 0} → Environment T
ticking = record {
  outside = record {
    World = ℕ × Bool;
    deliver_to_sink = λ td w. (w.1, (w.0, not w.1));
    cancelled = λ w. w.0 == 0;
    pause = λ w. w;
  };
  cancel = λ w. (0, w.1);
  wait_n = λ n w. (ltb 0 w.0, w);
  elapse = λ w. (w.0 - 1, w.1);
}

ticking-IsContext : {T : Type 0} → IsContext {T = T} ticking
ticking-IsContext = record {
  cancels = λ w. refl;
  sends = λ td w h. h;
  pauses = λ w h. h;
  waits = λ n w h. h;
  elapses = λ w h. ground (arith, h);
}

-- At most twenty spans.
abbrev pub capped : Config ℕ
capped = record small { gen = record small.gen { max_spans = 20 } }

pub capped-IsValid : IsValid capped
unfolding validate text_eq one_of
capped-IsValid = (validate-IsValid capped).0 refl

pub capped-IsInt64 : IsInt64 capped
capped-IsInt64 = record { longest = omega arith }

-- The first two workers in turn, with a tick between.
abbrev turns_taken : List Turn
turns_taken = work 0 ∷ work 1 ∷ work 0 ∷ other ∷ work 1 ∷ work 0 ∷ work 1 ∷ []

launch-Reach_example :
    (e : Engine ℕ) × (new_engine counting capped ≡ some e)
    × (end : Workers ticking (setup_of counting lists capped e)) × (s : System) × (schedule ticking
          (setup_of counting lists capped e)
          turns_taken
          (launch counting lists ticking capped e 4 0 (5, true))
        ≡ some end)
    × Reach 20 (has_limiter counting lists e.limiter) (worker_count (pos 3) 4) s
    × (s.workers ≡ map pc end.locals)
    × (s.shared.counters ≡ end.state.counters)
    × (s.shared.cancelled ≡ (end.state.world.0 == 0))
unfolding effective_batch_size text_eq
launch-Reach_example =
    launch-Reach counting lists ticking ticking-IsContext capped 3 4 0 (5, true) turns_taken
      capped-IsValid capped-IsInt64 refl (omega arith) (omega arith)

launch-lt-max_example :
    (e : Engine ℕ) × (new_engine counting capped ≡ some e)
    × (end : Workers ticking (setup_of counting lists capped e)) × (schedule ticking
          (setup_of counting lists capped e)
          turns_taken
          (launch counting lists ticking capped e 4 0 (5, true))
        ≡ some end)
    × (end.state.counters.sent + end.state.counters.errors + sum_of held (map pc end.locals)
        ≤ end.state.counters.generated)
    × ((capped.gen.max_spans ≡ 0)
        ⊎ (end.state.counters.sent
              + end.state.counters.errors
              + sum_of in_flight (map pc end.locals)
            < 20))
unfolding effective_batch_size text_eq
launch-lt-max_example =
    launch-lt-max counting lists ticking ticking-IsContext capped 3 4 0 (5, true) turns_taken
      capped-IsValid capped-IsInt64 refl (omega arith) (omega arith) (omega arith)

-- Each of the three workers as often as it needs for seven batches.
abbrev pub often : List Turn
often = replicate 70 (work 0) ++ replicate 70 (work 1) ++ replicate 70 (work 2)

pub often-IsFair : (i : ℕ) → i < worker_count (pos 3) 4 → 9 * 7 + 5 ≤ turns i often
unfolding worker_count turns
often-IsFair zero lt = omega arith
often-IsFair (suc zero) lt = omega arith
often-IsFair (suc (suc zero)) lt = omega arith
often-IsFair (suc (suc (suc i))) lt = omega (arith, lt)

launch-ends_example :
    (e : Engine ℕ) × (new_engine counting capped ≡ some e)
    × (end : Workers ticking (setup_of counting lists capped e)) × (schedule ticking
          (setup_of counting lists capped e)
          often
          (launch counting lists ticking capped e 4 0 (5, true))
        ≡ some end)
    × (length end.locals ≡ worker_count (pos 3) 4)
    × All (λ l. l ≡ returned) end.locals
unfolding effective_batch_size text_eq
launch-ends_example =
    launch-ends counting lists ticking ticking-IsContext capped 3 7 4 0 (5, true) often
      capped-IsValid capped-IsInt64 refl (omega arith) (omega arith) (omega arith) (omega arith)
      (omega arith) often-IsFair

-- Batches of three, by number.
abbrev numbered : Setup ℕ ℕ
numbered = record { fill = λ g. some (3, g, g + 1); max = 20; limited = false; batch = pos 3 }

-- One worker behind its batch and one that waits for the limiter, when the run ends.
abbrev late : Workers ticking numbered
late = record {
  locals = Local.generated 1 0 3 ∷ Local.counted 2 1 3 ∷ [];
  state = record {
    world = (0, true);
    counters = record { generated = 6; sent = 0; errors = 0 };
    calls = [];
  };
}

abbrev late_turns : List Turn
late_turns = replicate 4 (work 0) ++ other ∷ replicate 4 (work 1)

abbrev counters_of : Option (Workers ticking numbered) → Option Counters
counters_of none = none
counters_of (some ws) = some ws.state.counters

-- A worker alone, through one batch that the sink refuses once.
one_batch :
    counters_of (
      schedule ticking numbered
        (work 0 ∷ work 0 ∷ work 0 ∷ work 0 ∷ work 0 ∷ work 0 ∷ work 0 ∷ work 0 ∷ [])
        (start_all ticking numbered (0 ∷ []) (5, false)))
    ≡ some (record { generated = 3; sent = 3; errors = 0 })
unfolding schedule start_all happen deliver
one_batch = refl

late_turns-IsFair : (i : ℕ) → i < 2 → 4 ≤ turns i late_turns
unfolding turns
late_turns-IsFair zero lt = omega arith
late_turns-IsFair (suc zero) lt = omega arith
late_turns-IsFair (suc (suc i)) lt = omega (arith, lt)

schedule-returned_example :
    (end : Workers ticking numbered) × (schedule ticking numbered late_turns late ≡ some end)
    × (length end.locals ≡ 2)
    × All (λ l. l ≡ returned) end.locals
schedule-returned_example =
    schedule-returned ticking numbered ticking-IsContext (omega arith) late_turns late refl
      late_turns-IsFair
