-- ===== src/Engine/Schedule/Follows.antt =====
-- What the code of a worker is compared with: its place, and the step that the relation sees.
use spangen.Base.{ℕ, ◌+◌, ◌≤◌, ◌≡◌, refl, ◌⊎◌, inl, inr, Option, some, true, arith}
use spangen.Engine.Send.{State}
use spangen.Engine.Workers.{
  Shared, Pc, top, filled, cancelling, counted, waited, sending, stopped, Move,
}
use spangen.Engine.Schedule.{
  Environment, Local, looping, generated, reached, trying, accepting, refused, dropping, returned,
  Setup, count_batch, behind_count, pace, try_again, advance,
}
use spangen.Engine.Schedule as Code

-- `cancel()` ends the run context, and nothing takes the end back.
pub record IsContext {T : Type 0} (e : Environment T) : Type 0 where
  pub cancels : (w : e.outside.World) → e.outside.cancelled (e.cancel w) ≡ true
  pub sends :
      (td : T) (w : e.outside.World)
      → e.outside.cancelled w ≡ true
      → e.outside.cancelled (e.outside.deliver_to_sink td w).1 ≡ true
  pub pauses :
      (w : e.outside.World)
      → e.outside.cancelled w ≡ true
      → e.outside.cancelled (e.outside.pause w) ≡ true
  pub waits :
      (n : ℕ) (w : e.outside.World)
      → e.outside.cancelled w ≡ true
      → e.outside.cancelled (e.wait_n n w).1 ≡ true
  pub elapses :
      (w : e.outside.World) → e.outside.cancelled w ≡ true → e.outside.cancelled (e.elapse w) ≡ true

-- `FillBatch` returns, with at most so many spans.
pub record Fills {T G : Type 0} (u : Setup T G) (size : ℕ) : Type 0 where
  pub fills : (g : G) → (r : ℕ × T × G) × (u.fill g ≡ some r) × (r.0 ≤ size)

module _ {T G : Type 0} where
  -- Where the code of a worker stands.
  abbrev pub pc : Local T G → Pc
  pc (looping g) = top
  pc (generated g td n) = filled n
  pc (reached g td n) = cancelling n
  pc (Code.counted g td n) = counted n
  pc (Code.waited g td n) = waited n
  pc (trying g td n k) = sending n
  pc (accepting g n) = sending n
  pc (refused g td n k) = sending n
  pc (dropping g n) = sending n
  pc returned = stopped

  abbrev pub spans_in : Local T G → ℕ
  spans_in (looping g) = 0
  spans_in (generated g td n) = n
  spans_in (reached g td n) = n
  spans_in (Code.counted g td n) = n
  spans_in (Code.waited g td n) = n
  spans_in (trying g td n k) = n
  spans_in (accepting g n) = n
  spans_in (refused g td n k) = n
  spans_in (dropping g n) = n
  spans_in returned = 0

module _ {T G : Type 0} (e : Environment T) (u : Setup T G) (size : ℕ) where
  open e use {outside}

  -- The step that a worker makes from p, seen from the shared state.
  pub record Follows (s : Shared) (p : Pc) (l : Local T G) (t : State outside) : Type 0 where
    pub shared : Shared
    pub move : Move u.max u.limited s p shared (pc l) ⊎ ((p ≡ pc l) × (shared ≡ s))
    pub counters : shared.counters ≡ t.counters
    pub done : shared.cancelled ≡ true → outside.cancelled t.world ≡ true
    pub small : spans_in l ≤ size
    pub total : shared.total ≤ s.total + size

  pub data Steps (s : Shared) (p : Pc) : Option (Local T G × State outside) → Type 0 where
    steps : {l : Local T G} {t : State outside} → Follows s p l t → Steps s p (some (l, t))

  -- A step that the relation does not see.
  pub unseen :
      {l : Local T G} {t : State outside} (s : Shared) (p : Pc)
      → p ≡ pc l
      → s.counters ≡ t.counters
      → (s.cancelled ≡ true → outside.cancelled t.world ≡ true)
      → spans_in l ≤ size
      → Follows s p l t
  unseen s p same counters done small = record {
    shared = s;
    move = inr (same, refl);
    counters = counters;
    done = done;
    small = small;
    total = omega arith;
  }

  -- A step of the relation, to the shared state v.
  pub seen :
      {l : Local T G} {t : State outside} {s : Shared} {p : Pc} (v : Shared)
      → Move u.max u.limited s p v (pc l)
      → v.counters ≡ t.counters
      → (v.cancelled ≡ true → outside.cancelled t.world ≡ true)
      → spans_in l ≤ size
      → v.total ≤ s.total + size
      → Follows s p l t
  seen v m counters done small total = record {
    shared = v;
    move = inl m;
    counters = counters;
    done = done;
    small = small;
    total = total;
  }
