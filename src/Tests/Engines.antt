-- ===== src/Tests/Engines.antt =====
-- The engine at concrete inputs.
use spangen.Base.{
  ℕ, ◌*◌, ◌^◌, ◌≤◌, ◌<◌, ◌≡◌, ◌≢◌, refl, ◌⊎◌, List, [], ◌∷◌, none, some, Bool, true, false, arith,
}
use spangen.Base.Int.{pos}
use spangen.Engine.Seed.{seed_for, seed_for_clash}
use spangen.Engine.Send.{Outside, State, send}
use spangen.Engine.Send.Laws.{fate, fated, send-fated, send_panics}
use spangen.Engine.Workers.{
  Shared, Pc, top, waited, stopped, Move, fill, count_below, count_reached, cancel_run, unpaced,
  drop, begin, end, System, work, Reach, start, later, init, count_spans, finish, discard, cancel,
}
use spangen.Engine.Workers.Invariant.{Balanced, in_hand, Reach-Balanced}
use spangen.Engine.Workers.Shutdown.{none_taken, worker_step, Steps, steps_of, Steps-bounded}

-- A sink that answers from a list; the run context is done when the list is empty.
abbrev scripted : Outside ℕ
scripted = record {
  World = List Bool;
  deliver_to_sink = λ td w. elim w [ [] ↦ (false, []) | b ∷ bs ↦ (b, bs) ];
  cancelled = λ w. elim w [ [] ↦ true | _ ↦ false ];
  pause = λ w. w;
}

abbrev fresh : List Bool → State scripted
fresh w = record {
  world = w;
  counters = record { generated = 0; sent = 0; errors = 0 };
  calls = [];
}

send-fated_example :
    send scripted (pos 5) 0 5 (fresh (false ∷ true ∷ []))
    ≡ some (fated scripted (fate scripted 0 (false ∷ true ∷ [])) 5 (fresh (false ∷ true ∷ [])))
send-fated_example = send-fated scripted (pos 5) 0 5 (fresh (false ∷ true ∷ [])) (omega arith)

send_panics_example : send scripted (pos 0) 0 0 (fresh []) ≡ none
unfolding fate
send_panics_example = send_panics scripted (pos 0) 0 0 (fresh []) refl refl

seed_for_clash_example : (k : ℕ) × (k < 2 ^ 64) × (k ≢ 9) × (seed_for 7 k 1 ≡ seed_for 7 9 0)
seed_for_clash_example =
    seed_for_clash 7 9 0 1 (omega arith) (omega arith) (omega arith) (omega arith) (omega arith)

-- One worker with a limit of five spans: a batch of three is sent, and the next reaches the limit.
abbrev at : Shared → Pc → System
at u p = record { shared = u; workers = p ∷ [] }

step_one :
    {s u : Shared} {p q : Pc}
    → Reach 5 false 1 (at s p)
    → Move 5 false s p u q
    → Reach 5 false 1 (at u q)
step_one r m = later r (work [] [] refl m refl)

abbrev first_batch : Shared
first_batch = finish true 3 (count_spans 3 (init 1).shared)

first_sent : Reach 5 false 1 (at first_batch top)
unfolding count_spans
first_sent =
    step_one
      (step_one
        (step_one
          (step_one (step_one start (fill 3 refl)) (count_below (omega arith) (omega arith)))
          (unpaced refl))
        (begin refl))
      (end true)

abbrev second_batch : Shared
second_batch = cancel (count_spans 3 first_batch)

limit_reached : Reach 5 false 1 (at second_batch (waited 3))
unfolding count_spans finish
limit_reached =
    step_one
      (step_one
        (step_one (step_one first_sent (fill 3 refl)) (count_reached (omega arith) (omega arith)))
        cancel_run)
      (unpaced refl)

Reach-Balanced_example : Balanced second_batch (in_hand (at second_batch (waited 3)))
unfolding count_spans finish
Reach-Balanced_example = Reach-Balanced limit_reached (omega arith)

-- The last step of a worker whose batch the end of the run has caught.
last_step : Steps 5 false (at second_batch (waited 3)) 1 (at (discard 3 second_batch) stopped)
unfolding count_spans finish
last_step = worker_step [] [] none_taken refl (drop refl) refl

Steps-bounded_example :
    (1 ≤ 5 * 1)
    × ((i : ℕ) → steps_of i last_step ≤ 5)
    × ((p : Pc)
        → (p ≡ stopped) ⊎ ((q : Pc) × (u : Shared) × Move 5 false (discard 3 second_batch) p u q))
unfolding count_spans
Steps-bounded_example = Steps-bounded last_step refl
