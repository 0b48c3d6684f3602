-- ===== src/Engine/Workers/Invariant.antt =====
-- No span is lost or counted twice: what was generated is sent, dropped by `send`, discarded on
-- shutdown, or in a worker's hand.
use spangen.Base.{
  ℕ, ◌+◌, ◌%◌, ◌≤◌, ◌<◌, ◌≡◌, refl, sym, ap, ◌∙◌, subst, Bool, true, false, arith, sum_of,
  sum_of-middle, sum_of-replicate,
}
use native.Mathlib.Nat.{le_refl}
use spangen.Base.Word.{u64_mod}
use spangen.Engine.{deliver}
use spangen.Engine.Workers.{
  Shared, Pc, top, filled, cancelling, counted, waited, sending, stopped, count_spans, discard,
  finish, Move, leave, fill, count_unlimited, count_below, count_reached, cancel_run, unpaced,
  wait_done, wait_failed, drop, begin, end, System, Step, work, outside, Reach, start, later,
}

-- The spans of a batch that is counted and not yet settled.
abbrev pub held : Pc → ℕ
held top = 0
held (filled n) = 0
held (cancelling n) = n
held (counted n) = n
held (waited n) = n
held (sending n) = n
held stopped = 0

-- The accounts, with h spans in the workers' hands.
pub record Balanced (s : Shared) (h : ℕ) : Type 0 where
  pub counter : s.generated ≡ s.total % u64_mod
  pub conserved : s.sent + s.errors + s.discarded + h ≡ s.total

abbrev pub in_hand : System → ℕ
in_hand t = sum_of held t.workers

module _ {max : ℕ} {limited : Bool} where
  Move-total-le :
      {s : Shared} {p q : Pc} {u : Shared} → Move max limited s p u q → s.total ≤ u.total
  unfolding count_spans discard finish deliver
  Move-total-le (leave c) = le_refl _
  Move-total-le (fill n c) = le_refl _
  Move-total-le (count_unlimited m) = omega arith
  Move-total-le (count_below m b) = omega arith
  Move-total-le (count_reached m b) = omega arith
  Move-total-le cancel_run = le_refl _
  Move-total-le (unpaced l) = le_refl _
  Move-total-le (wait_done l) = le_refl _
  Move-total-le (wait_failed l) = le_refl _
  Move-total-le (drop c) = le_refl _
  Move-total-le (begin c) = le_refl _
  Move-total-le (end true) = le_refl _
  Move-total-le (end false) = le_refl _

  Move-Balanced :
      {s : Shared} {p q : Pc} {u : Shared} (rest : ℕ)
      → Move max limited s p u q
      → u.total < u64_mod
      → Balanced s (held p + rest)
      → Balanced u (held q + rest)
  unfolding count_spans discard finish deliver
  Move-Balanced rest (leave c) fits b = b
  Move-Balanced rest (fill n c) fits b = b
  Move-Balanced rest (count_unlimited m) fits b = omega arith
  Move-Balanced rest (count_below m l) fits b = omega arith
  Move-Balanced rest (count_reached m l) fits b = omega arith
  Move-Balanced rest cancel_run fits b = omega arith
  Move-Balanced rest (unpaced l) fits b = b
  Move-Balanced rest (wait_done l) fits b = b
  Move-Balanced rest (wait_failed l) fits b = omega arith
  Move-Balanced rest (drop c) fits b = omega arith
  Move-Balanced rest (begin c) fits b = b
  Move-Balanced rest (end true) fits b = omega arith
  Move-Balanced rest (end false) fits b = omega arith

  pub Step-total-le : {s t : System} → Step max limited s t → s.shared.total ≤ t.shared.total
  Step-total-le (work before after eq m e) = rw e (Move-total-le m)
  Step-total-le (outside e) = rw e (le_refl _)

  Step-Balanced :
      {s t : System}
      → Step max limited s t
      → t.shared.total < u64_mod
      → Balanced s.shared (in_hand s)
      → Balanced t.shared (in_hand t)
  Step-Balanced {s} (work before after {p} {q} {u} eq m e) fits b = rw e (
      subst (Balanced u) (sym (sum_of-middle held before after q)) (
        Move-Balanced (sum_of held before + sum_of held after) m (rw e at fits)
          (subst (Balanced s.shared) (ap (sum_of held) eq ∙ sum_of-middle held before after p) b)))
  Step-Balanced (outside e) fits b = rw e (omega arith)

  -- Every state that the workers reach has balanced accounts: each span generated was sent or counted
  -- as an error, exactly once, or was discarded unsent, or is in the hand of one worker. The bound
  -- says that the 64-bit counters have not wrapped.
  pub Reach-Balanced :
      {workers : ℕ} {s : System}
      → Reach max limited workers s
      → s.shared.total < u64_mod
      → Balanced s.shared (in_hand s)
  Reach-Balanced {workers} start fits = rw (sum_of-replicate held workers top refl) (omega arith)
  Reach-Balanced (later r st) fits =
      Step-Balanced st fits (Reach-Balanced r (omega (arith, Step-total-le st)))
