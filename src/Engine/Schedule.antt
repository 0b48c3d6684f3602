-- ===== src/Engine/Schedule.antt =====
-- engine.go: `worker` with `send`, cut at each access to what the workers share, and a schedule by which
-- any number of workers take turns.
pub mod Follows
pub mod Simulation
pub mod Runs
pub mod Refines
pub mod Turns
pub mod Countdown
pub mod Rounds
pub mod Going
pub mod Capped
pub mod Keeps
pub mod Stored
pub mod Books
pub mod Ending
use spangen.Base.{
  ℕ, ◌+◌, List, [], ◌∷◌, map, Option, none, some, Bool, true, false, get_elem?, set, ◌==◌, ltb, leb,
  if◌then◌else◌,
}
use spangen.Base.Int.{ℤ}
use spangen.Engine.{
  send_attempts, add_u64, inflight_inc, inflight_dec, spans_generated, send_errors,
}
use spangen.Engine.Send.{Outside, State, note, accepted, attempt_once, pause_between, settle, leave}

-- What the workers share beside the counters: the sink and the run context, with `cancel()`; `WaitN` of the
-- limiter (true where the error is nil); and what happens to them of itself: a signal, the duration.
pub record Environment (T : Type 0) : Type 1 where
  pub outside : Outside T
  pub cancel : outside.World → outside.World
  pub wait_n : ℕ → outside.World → Bool × outside.World
  pub elapse : outside.World → outside.World

-- Where a worker stands, with its generator, its batch and the number of spans.
pub data Local (T G : Type 0) : Type 0 where
  looping : G → Local T G  -- at the head of the loop
  generated : G → T → ℕ → Local T G  -- behind `FillBatch`
  reached : G → T → ℕ → Local T G  -- before `cancel()`
  counted : G → T → ℕ → Local T G  -- before the limiter
  waited : G → T → ℕ → Local T G  -- the test behind it
  trying : G → T → ℕ → ℕ → Local T G  -- before an attempt, with its number
  accepting : G → ℕ → Local T G  -- the sink took the batch
  refused : G → T → ℕ → ℕ → Local T G  -- it did not
  dropping : G → ℕ → Local T G  -- behind the loop of `send`
  returned : Local T G

-- A worker takes its next step, or something else happens.
pub data Turn : Type 0 where
  work : ℕ → Turn
  other : Turn

-- How the workers are set up: the generator's `FillBatch` (none: a panic), the span limit (0: none), whether
-- there is a limiter, and the batch size.
pub record Setup (T G : Type 0) : Type 0 where
  pub fill : G → Option (ℕ × T × G)
  pub max : ℕ
  pub limited : Bool
  pub batch : ℤ

module _ {T G : Type 0} (e : Environment T) (u : Setup T G) where
  open e use {outside, cancel, wait_n, elapse}

  abbrev filled : Option (ℕ × T × G) → State outside → Option (Local T G × State outside)
  filled none s = none
  filled (some (n, td, g)) s = some (generated g td n, s)

  -- `Add` on the counter of generated spans.
  unfoldable pub count_batch : ℕ → State outside → State outside
  count_batch n s = record s {
    counters = record s.counters { generated = add_u64 s.counters.generated n };
  }

  -- Behind that, with the value that `Add` returns.
  unfoldable pub behind_count : G → T → ℕ → ℕ → Local T G
  behind_count g td n total =
      if u.max == 0
      then counted g td n
      else if leb u.max total
      then reached g td n
      else counted g td n

  abbrev after_wait : G → T → ℕ → State outside → Bool × outside.World → Local T G × State outside
  after_wait g td n s (true, w) = (waited g td n, record s { world = w })
  after_wait g td n s (false, w) = (returned, record s { world = w })

  -- With a limiter, and without.
  abbrev pace_by : Bool → G → T → ℕ → State outside → Local T G × State outside
  pace_by true g td n s = after_wait g td n s (wait_n n s.world)
  pace_by false g td n s = (waited g td n, s)

  unfoldable pub pace : G → T → ℕ → State outside → Local T G × State outside
  pace g td n s = pace_by u.limited g td n s

  abbrev answered : G → T → ℕ → ℕ → Bool × State outside → Local T G × State outside
  answered g td n k (true, s) = (accepting g n, s)
  answered g td n k (false, s) = (refused g td n k, s)

  -- The pause and the next attempt, unless this was the last.
  abbrev next_attempt : G → T → ℕ → ℕ → State outside → Local T G × State outside
  next_attempt g td n k s =
      if ltb (k + 1) send_attempts
      then (trying g td n (k + 1), pause_between outside k s)
      else (dropping g n, s)

  -- Behind an error: no further attempt once the run context is done.
  unfoldable pub try_again : G → T → ℕ → ℕ → State outside → Local T G × State outside
  try_again g td n k s = elim (outside.cancelled s.world) [
    | true ↦ (dropping g n, s)
    | false ↦ next_attempt g td n k s
  ]

  abbrev back_to : G → Option (State outside) → Option (Local T G × State outside)
  back_to g none = none
  back_to g (some s) = some (looping g, s)

  -- The next step of a worker; `none` is a panic.
  unfoldable pub advance : Local T G → State outside → Option (Local T G × State outside)
  unfolding count_batch behind_count pace try_again
  advance (looping g) s = elim (outside.cancelled s.world) [
    | true ↦ some (returned, s)
    | false ↦ filled (u.fill g) s
  ]
  advance (generated g td n) s =
      some (behind_count g td n (add_u64 s.counters.generated n), count_batch n s)
  advance (reached g td n) s = some (counted g td n, record s { world = cancel s.world })
  advance (counted g td n) s = some (pace g td n (note outside (spans_generated n) s))
  advance (waited g td n) s = elim (outside.cancelled s.world) [
    | true ↦ some (returned, s)
    | false ↦ some (trying g td n 0, note outside inflight_inc s)
  ]
  advance (trying g td n k) s = some (answered g td n k (attempt_once outside td s))
  advance (accepting g n) s = back_to g (leave outside (some (accepted outside n s)))
  advance (refused g td n k) s = some (try_again g td n k (note outside send_errors s))
  advance (dropping g n) s = back_to g (leave outside (settle outside u.batch n (false, s)))
  advance returned s = some (returned, s)

  pub record Workers : Type 0 where
    pub locals : List (Local T G)
    pub state : State outside

  -- New workers, with a generator each.
  unfoldable pub start_all : List G → outside.World → Workers
  start_all gens w = record {
    locals = map looping gens;
    state = record {
      world = w;
      counters = record { generated = 0; sent = 0; errors = 0 };
      calls = [];
    };
  }

  abbrev moved : ℕ → Workers → Option (Local T G × State outside) → Option Workers
  moved i ws none = none
  moved i ws (some (l, s)) = some (record { locals = set ws.locals i l; state = s })

  unfoldable pub happen : Turn → Workers → Option Workers
  unfolding advance
  happen (work i) ws = elim (get_elem? ws.locals i) [
    | none ↦ some ws
    | some l ↦ moved i ws (advance l ws.state)
  ]
  happen other ws = some (record ws { state = record ws.state { world = elapse ws.state.world } })

  abbrev behind : (Workers → Option Workers) → Option Workers → Option Workers
  behind rest none = none
  behind rest (some ws) = rest ws

  -- The workers under a schedule.
  unfoldable pub schedule : List Turn → Workers → Option Workers
  schedule [] ws = some ws
  schedule (x ∷ xs) ws = behind (schedule xs) (happen x ws)
