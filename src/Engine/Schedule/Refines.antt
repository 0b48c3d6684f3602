-- ===== src/Engine/Schedule/Refines.antt =====
-- The workers' code refines the step relation, and what follows for its counters.
use spangen.Base.{
  ℕ, ◌+◌, ◌*◌, ◌^◌, ◌≤◌, ◌<◌, ◌≡◌, refl, ap, subst, ◌≢◌, ◌⊎◌, inl, inr, Bool-cases, ◌==◌, List, [],
  ◌∷◌, map, length, All, some, replicate, sum_of, arith,
}
use spangen.Engine.{Counters}
use spangen.Engine.Send.{log_period}
use spangen.Engine.Workers.{top, System, init, Reach, start}
use spangen.Engine.Workers.Invariant.{held, Reach-Balanced}
use spangen.Engine.Workers.Limit.{in_flight, sent-lt-limit}
use spangen.Engine.Schedule.{Environment, Local, looping, Setup, Turn, Workers, start_all, schedule}
use spangen.Engine.Schedule.Follows.{IsContext, Fills, pc, spans_in}
use spangen.Engine.Schedule.Runs.{Tracks, catch_up, schedule-Tracks}

abbrev looping_at : (T : Type 0) {G : Type 0} → G → Local T G
looping_at T g = looping g

all_top :
    (T : Type 0)
    → {G : Type 0} → (gens : List G)
    → replicate (length gens) top ≡ map pc (map (looping_at T) gens)
all_top T [] = refl
all_top T (g ∷ gens) = ap (◌∷◌ top) (all_top T gens)

no_spans :
    (T : Type 0)
    → {G : Type 0} → (size : ℕ) (gens : List G)
    → All (λ l. spans_in l ≤ size) (map (looping_at T) gens)
no_spans T size [] = tt
no_spans T size (g ∷ gens) = (omega arith, no_spans T size gens)

module _ {T G : Type 0} (e : Environment T) (u : Setup T G) (size : ℕ) (c : IsContext e)
    (f : Fills u size) (period : log_period e.outside u.batch ≢ 0) where
  tracked :
      (gens : List G) (w : e.outside.World) (xs : List Turn)
      → (end : Workers e u) × (schedule e u xs (start_all e u gens w) ≡ some end)
        × Tracks e u size (length gens) (length xs) end
  unfolding start_all
  tracked gens w xs =
      let (end, q, t) = schedule-Tracks e u size c f period 0 xs (start_all e u gens w) (
        catch_up e u size (init (length gens)) start (all_top T gens) refl (λ q. cc)
          (no_spans T size gens) (omega arith)) in
      (end, q, subst (λ k. Tracks e u size (length gens) k end) (omega arith) t)

  -- Under every schedule the workers' code goes on without a panic, and comes to a state that the step
  -- relation reaches from its start: with the workers at the same places, the same counters, and the
  -- run context done in both or in neither. This over a run context of which nothing takes the end back, for
  -- generators that fill their batches, and a log period other than zero.
  pub schedule-Reach :
      (gens : List G) (w : e.outside.World) (xs : List Turn)
      → (end : Workers e u) × (s : System) × (schedule e u xs (start_all e u gens w) ≡ some end)
        × Reach u.max u.limited (length gens) s
        × (s.workers ≡ map pc end.locals)
        × (s.shared.counters ≡ end.state.counters)
        × (s.shared.cancelled ≡ e.outside.cancelled end.state.world)
  schedule-Reach gens w xs =
      let (end, q, t) = tracked gens w xs in
      (end, t.system, q, t.reach, t.shape, t.counters, t.flag)

  -- Under a schedule of so few events that the counter of generated spans does not wrap, that counter covers
  -- the spans that the code counted as sent, those that it counted as dropped and those in the workers' hands;
  -- and those sent, dropped and in flight stay below the span limit, unless it is 0.
  pub schedule-lt-max :
      (gens : List G) (w : e.outside.World) (xs : List Turn)
      → length xs * size < 2 ^ 64
      → (end : Workers e u) × (schedule e u xs (start_all e u gens w) ≡ some end)
        × (end.state.counters.sent + end.state.counters.errors + sum_of held (map pc end.locals)
            ≤ end.state.counters.generated)
        × ((u.max ≡ 0)
            ⊎ (end.state.counters.sent
                  + end.state.counters.errors
                  + sum_of in_flight (map pc end.locals)
                < u.max))
  schedule-lt-max gens w xs fits =
      let (end, q, t) = tracked gens w xs in
      let small : t.system.shared.total < 2 ^ 64 = omega (arith, t.total) in
      let accounts = Reach-Balanced t.reach small in
      let sent : t.system.shared.sent ≡ end.state.counters.sent =
        ap (λ (k : Counters). k.sent) t.counters in
      let errors : t.system.shared.errors ≡ end.state.counters.errors =
        ap (λ (k : Counters). k.errors) t.counters in
      let generated : t.system.shared.generated ≡ end.state.counters.generated =
        ap (λ (k : Counters). k.generated) t.counters in
      (
        end,
        q,
        omega (
          arith,
          accounts.counter,
          accounts.conserved,
          sent,
          errors,
          generated,
          ap (sum_of held) t.shape,
        ),
        elim (Bool-cases (u.max == 0)) [
          | inl none ↦ inl (ground arith)
          | inr some_limit ↦ inr (
              omega (
                arith,
                sent-lt-limit (ground arith) t.reach small,
                sent,
                errors,
                ap (sum_of in_flight) t.shape,
              ))
        ],
      )
