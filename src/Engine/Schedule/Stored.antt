-- ===== src/Engine/Schedule/Stored.antt =====
-- The counter of sent spans, against a count of the rows in the batches that the sink has taken.
use spangen.Base.{
  ℕ, zero, suc, ◌+◌, ◌%◌, ◌^◌, ◌≡◌, refl, ap, inl, inr, List, [], ◌∷◌, ◌++◌, Option, none, some,
  some-injective, Bool, true, false, Bool-cases, get_elem?, set, sum_of, ◌==◌, ltb, leb,
  if◌then◌else◌, arith,
}
use spangen.Engine.{observe_duration, spans_generated, send_attempts, send_errors, add_u64, deliver}
use spangen.Engine.Send.{State, note, log_period}
use spangen.Engine.Schedule.{
  Environment, Local, looping, generated, reached, counted, waited, trying, accepting, refused,
  dropping, returned, Setup, filled, after_wait, pace_by, pace, answered, count_batch, behind_count,
  next_attempt, try_again, advance,
}

-- A count in the surroundings that goes up by the rows of a batch where the sink answers without an error,
-- and by nothing else.
pub record IsStore {T : Type 0} (e : Environment T) (rows : T → ℕ) : Type 0 where
  pub stored : e.outside.World → ℕ
  pub accepts :
      (td : T) (w : e.outside.World)
      → (e.outside.deliver_to_sink td w).0 ≡ true
      → stored (e.outside.deliver_to_sink td w).1 ≡ stored w + rows td
  pub refuses :
      (td : T) (w : e.outside.World)
      → (e.outside.deliver_to_sink td w).0 ≡ false
      → stored (e.outside.deliver_to_sink td w).1 ≡ stored w
  pub pauses : (w : e.outside.World) → stored (e.outside.pause w) ≡ stored w
  pub waits : (n : ℕ) (w : e.outside.World) → stored (e.wait_n n w).1 ≡ stored w
  pub cancels : (w : e.outside.World) → stored (e.cancel w) ≡ stored w
  pub elapses : (w : e.outside.World) → stored (e.elapse w) ≡ stored w

-- `FillBatch` returns the number of rows that the batch has.
pub record IsMeasured {T G : Type 0} (u : Setup T G) (rows : T → ℕ) : Type 0 where
  pub measures : (g : G) {n : ℕ} {td : T} {h : G} → u.fill g ≡ some (n, td, h) → rows td ≡ n

module _ {T G : Type 0} (rows : T → ℕ) where
  -- A worker has the number of its batch.
  abbrev pub HasCount : Local T G → Type 0
  HasCount (looping g) = Unit
  HasCount (generated g td n) = rows td ≡ n
  HasCount (reached g td n) = rows td ≡ n
  HasCount (counted g td n) = rows td ≡ n
  HasCount (waited g td n) = rows td ≡ n
  HasCount (trying g td n k) = rows td ≡ n
  HasCount (accepting g n) = Unit
  HasCount (refused g td n k) = rows td ≡ n
  HasCount (dropping g n) = Unit
  HasCount returned = Unit

-- The spans of a batch that the sink has taken and the worker has still to count.
abbrev pub to_count : {T G : Type 0} → Local T G → ℕ
to_count (accepting g n) = n
to_count _ = 0

pub sum_of-set :
    {A : Type 0} (w : A → ℕ) (xs : List A) (i : ℕ) (m : A) {l : A}
    → get_elem? xs i ≡ some l
    → sum_of w (set xs i m) + w l ≡ sum_of w xs + w m
unfolding sum_of
sum_of-set w [] i m h = cc
sum_of-set w (x ∷ xs) zero m {l} h = omega (arith, ap w (some-injective x l h))
sum_of-set w (x ∷ xs) (suc i) m h = omega (arith, sum_of-set w xs i m h)

module _ {T G : Type 0} (e : Environment T) (u : Setup T G) (rows : T → ℕ) (s : IsStore e rows)
    (f : IsMeasured u rows) where
  open e use {outside}
  open s use {stored}

  -- A step counts what the sink takes.
  pub record Books (l : Local T G) (t : State outside) (m : Local T G) (v : State outside)
      : Type 0 where
    pub same :
        (stored t.world + v.counters.sent + to_count m) % 2 ^ 64
        ≡ (stored v.world + t.counters.sent + to_count l) % 2 ^ 64
    pub has : HasCount rows m

  abbrev pub Booked : Local T G → State outside → Option (Local T G × State outside) → Type 0
  Booked l t none = Unit
  Booked l t (some (m, v)) = Books l t m v

  module _ (t : State outside) where
    -- A step behind which the sink has taken no more.
    idle :
        {l m : Local T G} {v : State outside}
        → v.counters.sent ≡ t.counters.sent
        → to_count l ≡ to_count m
        → stored v.world ≡ stored t.world
        → HasCount rows m
        → Books l t m v
    idle sent count world has = record {
      same = ap (λ n. n % 2 ^ 64) (omega (arith, sent, count, world));
      has = has;
    }

    looping-Booked : (g : G) → Booked (looping g) t (advance e u (looping g) t)
    unfolding advance
    looping-Booked g = elim (Bool-cases (outside.cancelled t.world)) [
      | inl q ↦ rw (q, advance) (idle refl refl refl tt)
      | inr q ↦ rw (q, advance) (made (u.fill g) refl)
    ]
      where
        made : (m : Option (ℕ × T × G)) → u.fill g ≡ m → Booked (looping g) t (filled e u m t)
        made none q = tt
        made (some (n, td, h)) q = idle refl refl refl (f.measures g q)

    generated-Booked :
        (g : G) (td : T) (n : ℕ)
        → rows td ≡ n
        → Booked (generated g td n) t (advance e u (generated g td n) t)
    unfolding advance behind_count count_batch
    generated-Booked g td n has = elim (Bool-cases (u.max == 0)) [
      | inl q ↦ rw (q, advance, behind_count) (idle refl refl refl has)
      | inr q ↦
          rw (q, advance, behind_count) (by_limit (leb u.max (add_u64 t.counters.generated n)))
    ]
      where
        by_limit :
            (b : Bool)
            → Books
                (generated g td n)
                t
                (if b then reached g td n else counted g td n)
                (count_batch e u n t)
        by_limit true = idle refl refl refl has
        by_limit false = idle refl refl refl has

    counted-Booked :
        (b : Bool) (g : G) (td : T) (n : ℕ)
        → rows td ≡ n
        → Booked
            (counted g td n)
            t
            (some (pace_by e u b g td n (note outside (spans_generated n) t)))
    counted-Booked false g td n has = idle refl refl refl has
    counted-Booked true g td n has = answer (e.wait_n n t.world) (s.waits n t.world)
      where
        answer :
            (m : Bool × outside.World)
            → stored m.1 ≡ stored t.world
            → Booked
                (counted g td n)
                t
                (some (after_wait e u g td n (note outside (spans_generated n) t) m))
        answer (true, w) q = idle refl refl q has
        answer (false, w) q = idle refl refl q tt

    trying-Booked :
        (g : G) (td : T) (n i : ℕ) (m : Bool × outside.World)
        → rows td ≡ n
        → (m.0 ≡ true → stored m.1 ≡ stored t.world + rows td)
        → (m.0 ≡ false → stored m.1 ≡ stored t.world)
        → Booked (trying g td n i) t (
            some (
              answered e u g td n i
                (m.0, record t { world = m.1; calls = t.calls ++ observe_duration ∷ [] })))
    trying-Booked g td n i (true, w) has taken not_taken = record {
      same = ap (λ n. n % 2 ^ 64) (omega (arith, has, taken refl));
      has = tt;
    }
    trying-Booked g td n i (false, w) has taken not_taken = idle refl refl (not_taken refl) has

    refused-Booked :
        (g : G) (td : T) (n i : ℕ)
        → rows td ≡ n
        → Booked (refused g td n i) t (some (try_again e u g td n i (note outside send_errors t)))
    unfolding try_again
    refused-Booked g td n i has = elim (Bool-cases (outside.cancelled t.world)) [
      | inl q ↦ rw (q, try_again) (idle refl refl refl tt)
      | inr q ↦ rw (q, try_again) (by_attempt (ltb (i + 1) send_attempts) refl)
    ]
      where
        by_attempt :
            (b : Bool)
            → ltb (i + 1) send_attempts ≡ b
            → Booked
                (refused g td n i)
                t
                (some (next_attempt e u g td n i (note outside send_errors t)))
        by_attempt true q = rw q (idle refl refl (s.pauses t.world) has)
        by_attempt false q = rw q (idle refl refl refl tt)

    pub advance-Booked : (l : Local T G) → HasCount rows l → Booked l t (advance e u l t)
    unfolding advance pace deliver
    advance-Booked (looping g) has = looping-Booked g
    advance-Booked (generated g td n) has = generated-Booked g td n has
    advance-Booked (reached g td n) has = idle refl refl (s.cancels t.world) has
    advance-Booked (counted g td n) has = counted-Booked u.limited g td n has
    advance-Booked (waited g td n) has = elim (Bool-cases (outside.cancelled t.world)) [
      | inl q ↦ rw (q, advance) (idle refl refl refl tt)
      | inr q ↦ rw (q, advance) (idle refl refl refl has)
    ]
    advance-Booked (trying g td n i) has =
        trying-Booked g td n i (outside.deliver_to_sink td t.world) has (s.accepts td t.world)
          (s.refuses td t.world)
    advance-Booked (accepting g n) has = record { same = omega arith; has = tt }
    advance-Booked (refused g td n i) has = refused-Booked g td n i has
    advance-Booked (dropping g n) has = elim (Bool-cases (log_period outside u.batch == 0)) [
      | inl q ↦ rw (q, advance) tt
      | inr q ↦ rw (q, advance) (idle refl refl refl tt)
    ]
    advance-Booked returned has = idle refl refl refl tt
