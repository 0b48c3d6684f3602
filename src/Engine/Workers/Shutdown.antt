-- ===== src/Engine/Workers/Shutdown.antt =====
-- The end of a run: once the run context is done, every worker returns after a bounded number of
-- steps, and nothing holds one up, so the wait of `Run` on its workers ends.
use spangen.Base.{
  ℕ, zero, suc, ◌+◌, ◌*◌, ◌≤◌, ◌<◌, ◌≡◌, refl, ap, ◌⊎◌, inl, inr, List, [], ◌∷◌, ◌++◌, Bool, true,
  false, length, arith, sum_of, sum_of-middle, Bool-cases,
}
use native.Mathlib.Decide.{dec_lt}
use spangen.Engine.{deliver, add_u64}
use spangen.Engine.Workers.{
  Shared, Pc, top, filled, cancelling, counted, waited, sending, stopped, count_spans, discard,
  finish, cancel, Move, leave, fill, count_unlimited, count_below, count_reached, cancel_run,
  unpaced, wait_done, wait_failed, drop, begin, end, System,
}

-- The most steps that a worker can still take once the run context is done.
abbrev pub rank : Pc → ℕ
rank top = 1
rank (filled n) = 5
rank (cancelling n) = 4
rank (counted n) = 3
rank (waited n) = 2
rank (sending n) = 2
rank stopped = 0

module _ {max : ℕ} {limited : Bool} where
  Move-rank :
      {s : Shared} {p q : Pc} {u : Shared}
      → Move max limited s p u q
      → s.cancelled ≡ true
      → (u.cancelled ≡ true) × (rank q < rank p)
  unfolding count_spans discard finish deliver
  Move-rank (leave d) c = (c, omega arith)
  Move-rank (fill n d) c = cc
  Move-rank (count_unlimited m) c = (c, omega arith)
  Move-rank (count_below m b) c = (c, omega arith)
  Move-rank (count_reached m b) c = (c, omega arith)
  Move-rank cancel_run c = (refl, omega arith)
  Move-rank (unpaced l) c = (c, omega arith)
  Move-rank (wait_done l) c = (c, omega arith)
  Move-rank (wait_failed l) c = (c, omega arith)
  Move-rank (drop d) c = (c, omega arith)
  Move-rank (begin d) c = cc
  Move-rank (end true) c = (c, omega arith)
  Move-rank (end false) c = (c, omega arith)

module _ (max : ℕ) (limited : Bool) (s : Shared) where
  abbrev Next : Pc → Type 0
  Next p = (q : Pc) × (u : Shared) × Move max limited s p u q

  Next-top : Next top
  Next-top = elim (Bool-cases s.cancelled) [
    | inl done ↦ (_, _, leave done)
    | inr going ↦ (_, _, fill 0 going)
  ]

  Next-filled : (n : ℕ) → Next (filled n)
  Next-filled n = elim (dec_lt 0 max) [
    | no m ↦ (_, _, count_unlimited (omega arith))
    | yes m ↦ elim (dec_lt (add_u64 s.generated n) max) [
      | yes below ↦ (_, _, count_below m below)
      | no reached ↦ (_, _, count_reached m (omega arith))
    ]
  ]

  Next-counted : (n : ℕ) → Next (counted n)
  Next-counted n = elim (Bool-cases limited) [
    | inl paced ↦ (_, _, wait_done paced)
    | inr free ↦ (_, _, unpaced free)
  ]

  Next-waited : (n : ℕ) → Next (waited n)
  Next-waited n = elim (Bool-cases s.cancelled) [
    | inl done ↦ (_, _, drop done)
    | inr going ↦ (_, _, begin going)
  ]

  -- A worker that has not returned can go on, whatever the state that it shares.
  pub Move-progress : (p : Pc) → (p ≡ stopped) ⊎ Next p
  Move-progress top = inr Next-top
  Move-progress (filled n) = inr (Next-filled n)
  Move-progress (cancelling n) = inr (_, _, cancel_run)
  Move-progress (counted n) = inr (Next-counted n)
  Move-progress (waited n) = inr (Next-waited n)
  Move-progress (sending n) = inr (_, _, end true)
  Move-progress stopped = inl refl

-- The steps of a run after s, with the number of those that a worker takes.
pub data Steps (max : ℕ) (limited : Bool) (s : System) : ℕ → System → Type 0 where
  none_taken : Steps max limited s 0 s
  worker_step :
      {k : ℕ} {t u : System} (before after : List Pc) {p q : Pc} {v : Shared}
      → Steps max limited s k t
      → t.workers ≡ before ++ p ∷ after
      → Move max limited t.shared p v q
      → u ≡ record { shared = v; workers = before ++ q ∷ after }
      → Steps max limited s (suc k) u
  outside_step :
      {k : ℕ} {t u : System}
      → Steps max limited s k t
      → u ≡ record { shared = cancel t.shared; workers = t.workers }
      → Steps max limited s k u

module _ {max : ℕ} {limited : Bool} {s : System} where
  Steps-rank :
      {k : ℕ} {t : System}
      → Steps max limited s k t
      → s.shared.cancelled ≡ true
      → (t.shared.cancelled ≡ true) × (k + sum_of rank t.workers ≤ sum_of rank s.workers)
  Steps-rank none_taken c = (c, omega arith)
  Steps-rank (worker_step before after {p} {q} st eq m e) c =
      let (done, bound) = Steps-rank st c in
      let (still, less) = Move-rank m done in
      rw e (
        still,
        omega (
          arith,
          sum_of-middle rank before after q,
          sum_of-middle rank before after p,
          ap (sum_of rank) eq,
        ),
      )
  Steps-rank (outside_step st e) c = let (done, bound) = Steps-rank st c in rw e (refl, bound)

-- Whether the worker behind `before` is the one with the number i, as 1 or 0.
abbrev pub hits : List Pc → ℕ → ℕ
hits [] zero = 1
hits [] (suc i) = 0
hits (p ∷ before) zero = 0
hits (p ∷ before) (suc i) = hits before i

-- The steps among these that the worker with the number i takes.
unfoldable pub steps_of :
    {max : ℕ} {limited : Bool} {s : System} {k : ℕ} {t : System} → ℕ → Steps max limited s k t → ℕ
steps_of i none_taken = 0
steps_of i (worker_step before after st eq m e) = hits before i + steps_of i st
steps_of i (outside_step st e) = steps_of i st

unfoldable rank_at : List Pc → ℕ → ℕ
rank_at [] i = 0
rank_at (p ∷ ps) zero = rank p
rank_at (p ∷ ps) (suc i) = rank_at ps i

rank_at-middle :
    (before after : List Pc) (p q : Pc) (i : ℕ)
    → rank q < rank p
    → hits before i + rank_at (before ++ q ∷ after) i ≤ rank_at (before ++ p ∷ after) i
unfolding rank_at
rank_at-middle [] after p q zero less = omega arith
rank_at-middle [] after p q (suc i) less = omega arith
rank_at-middle (x ∷ before) after p q zero less = omega arith
rank_at-middle (x ∷ before) after p q (suc i) less = rank_at-middle before after p q i less

module _ {max : ℕ} {limited : Bool} {s : System} where
  steps_of-rank :
      {k : ℕ} {t : System} (i : ℕ) (st : Steps max limited s k t)
      → s.shared.cancelled ≡ true
      → steps_of i st + rank_at t.workers i ≤ rank_at s.workers i
  unfolding steps_of
  steps_of-rank i none_taken c = omega arith
  steps_of-rank i (worker_step before after {p} {q} st eq m e) c =
      let less = (Move-rank m (Steps-rank st c).0).1 in
      rw e (
        omega (
          arith,
          steps_of-rank i st c,
          rank_at-middle before after p q i less,
          ap (λ ps. rank_at ps i) eq,
        ))
  steps_of-rank i (outside_step st e) c = rw e (steps_of-rank i st c)

rank-le : (p : Pc) → rank p ≤ 5
rank-le p = ground arith

sum_of-rank-le : (ps : List Pc) → sum_of rank ps ≤ 5 * length ps
unfolding sum_of
sum_of-rank-le [] = omega arith
sum_of-rank-le (p ∷ ps) = omega (arith, rank-le p, sum_of-rank-le ps)

rank_at-le : (ps : List Pc) (i : ℕ) → rank_at ps i ≤ 5
unfolding rank_at
rank_at-le [] i = omega arith
rank_at-le (p ∷ ps) zero = rank-le p
rank_at-le (p ∷ ps) (suc i) = rank_at-le ps i

-- Once the run context is done the workers take at most five steps each, whatever is interleaved, and so
-- together at most five times as many as there are workers; and as long as one of them has not returned
-- it has a step to take.
pub Steps-bounded :
    {max : ℕ} {limited : Bool} {s : System} {k : ℕ} {t : System} (st : Steps max limited s k t)
    → s.shared.cancelled ≡ true
    → (k ≤ 5 * length s.workers)
      × ((i : ℕ) → steps_of i st ≤ 5)
      × ((p : Pc) → (p ≡ stopped) ⊎ ((q : Pc) × (u : Shared) × Move max limited t.shared p u q))
Steps-bounded {max} {limited} {s} {k} {t} st c = (
  omega (arith, (Steps-rank st c).1, sum_of-rank-le s.workers),
  λ i. omega (arith, steps_of-rank i st c, rank_at-le s.workers i),
  Move-progress max limited t.shared,
)
