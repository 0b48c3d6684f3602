-- ===== src/Engine/Workers.antt =====
-- engine.go: `worker`, for any number of workers over the shared counters and one run context. Each
-- access to what they share is one step, and the steps of the workers interleave in any order.
pub mod Invariant
pub mod Limit
pub mod Shutdown
use spangen.Base.{ℕ, ◌+◌, ◌≤◌, ◌<◌, ◌≡◌, List, [], ◌∷◌, ◌++◌, Bool, true, false, replicate}
use spangen.Engine.{Counters, add_u64, deliver}

-- The counters, whether the run context is done, and two numbers that the program does not keep and the
-- statements speak of: the spans generated, without the wrap of the counter, and the spans of
-- batches that no send was begun for.
pub record Shared : Type 0 where
  pub counters : Counters
  pub open counters use *
  pub cancelled : Bool
  pub total : ℕ
  pub discarded : ℕ

-- Where a worker stands, with the number of spans of its batch.
pub data Pc : Type 0 where
  top : Pc  -- the test at the head of the loop
  filled : ℕ → Pc  -- behind `FillBatch`
  cancelling : ℕ → Pc  -- before `cancel()`
  counted : ℕ → Pc  -- before `WaitN`, or its absence
  waited : ℕ → Pc  -- the test behind the wait
  sending : ℕ → Pc  -- in `send`
  stopped : Pc  -- behind `return`

unfoldable pub count_spans : ℕ → Shared → Shared
count_spans n s = record s {
  counters = record s.counters { generated = add_u64 s.generated n };
  total = s.total + n;
}

unfoldable pub discard : ℕ → Shared → Shared
discard n s = record s { discarded = s.discarded + n }

unfoldable pub finish : Bool → ℕ → Shared → Shared
unfolding deliver
finish taken n s = record s { counters = deliver taken n s.counters }

abbrev pub cancel : Shared → Shared
cancel s = record s { cancelled = true }

-- One step of a worker at a span limit of `max` (0: none) and with or without a limiter. What
-- `FillBatch` returns, whether `WaitN` fails, and whether the sink takes the batch are left open.
pub data Move (max : ℕ) (limited : Bool) (s : Shared) : Pc → Shared → Pc → Type 0 where
  leave : s.cancelled ≡ true → Move max limited s top s stopped
  fill : (n : ℕ) → s.cancelled ≡ false → Move max limited s top s (filled n)
  count_unlimited : {n : ℕ} → max ≡ 0 → Move max limited s (filled n) (count_spans n s) (counted n)
  count_below :
      {n : ℕ}
      → 0 < max
      → add_u64 s.generated n < max
      → Move max limited s (filled n) (count_spans n s) (counted n)
  count_reached :
      {n : ℕ}
      → 0 < max
      → max ≤ add_u64 s.generated n
      → Move max limited s (filled n) (count_spans n s) (cancelling n)
  cancel_run : {n : ℕ} → Move max limited s (cancelling n) (cancel s) (counted n)
  unpaced : {n : ℕ} → limited ≡ false → Move max limited s (counted n) s (waited n)
  wait_done : {n : ℕ} → limited ≡ true → Move max limited s (counted n) s (waited n)
  wait_failed : {n : ℕ} → limited ≡ true → Move max limited s (counted n) (discard n s) stopped
  drop : {n : ℕ} → s.cancelled ≡ true → Move max limited s (waited n) (discard n s) stopped
  begin : {n : ℕ} → s.cancelled ≡ false → Move max limited s (waited n) s (sending n)
  end : {n : ℕ} (taken : Bool) → Move max limited s (sending n) (finish taken n s) top

pub record System : Type 0 where
  pub shared : Shared
  pub workers : List Pc

-- A step of one worker, or the end of the run context from outside: a signal, the duration.
pub data Step (max : ℕ) (limited : Bool) (s t : System) : Type 0 where
  work :
      (before after : List Pc) {p q : Pc} {u : Shared}
      → s.workers ≡ before ++ p ∷ after
      → Move max limited s.shared p u q
      → t ≡ record { shared = u; workers = before ++ q ∷ after }
      → Step max limited s t
  outside : t ≡ record s { shared = cancel s.shared } → Step max limited s t

abbrev pub init : ℕ → System
init workers = record {
  shared = record {
    counters = record { generated = 0; sent = 0; errors = 0 };
    cancelled = false;
    total = 0;
    discarded = 0;
  };
  workers = replicate workers top;
}

pub data Reach (max : ℕ) (limited : Bool) (workers : ℕ) : System → Type 0 where
  start : Reach max limited workers (init workers)
  later :
      {s t : System}
      → Reach max limited workers s
      → Step max limited s t
      → Reach max limited workers t
