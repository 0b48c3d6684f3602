-- ===== src/Engine/Schedule/Going.antt =====
-- The steps of a worker under a span limit, in turns.
use spangen.Base.{
  ℕ, zero, suc, ◌+◌, ◌-◌, ◌^◌, ◌≤◌, ◌<◌, ◌≡◌, refl, ◌≢◌, ◌⊎◌, inl, inr, [], ◌∷◌, ◌++◌, Option, none,
  some, Bool, true, false, Bool-cases, ◌==◌, ltb, leb, if◌then◌else◌, arith,
}
use spangen.Engine.{observe_duration, spans_generated, send_attempts, add_u64, send_errors, deliver}
use spangen.Engine.Send.{State, note, log_period}
use spangen.Engine.Schedule.{
  Environment, Local, looping, generated, reached, counted, waited, trying, accepting, refused,
  dropping, returned, Setup, count_batch, behind_count, pace, try_again, advance,
}
use spangen.Engine.Schedule as Code
use spangen.Engine.Schedule.Follows.{IsContext}
use spangen.Engine.Schedule.Turns.{turns_left}
use spangen.Engine.Schedule.Rounds.{
  FillsUp, retries, Rounds, next_Rounds, counted_Rounds, Enough, IsFull,
}

module _ {T G : Type 0} (e : Environment T) (u : Setup T G) (size : ℕ) where
  open e use {outside}

  -- What a step from the place l and the state t comes to.
  pub record Goes (l : Local T G) (t : State outside) (m : Local T G) (v : State outside)
      : Type 0 where
    pub grows : t.counters.generated ≤ v.counters.generated
    pub bounded : v.counters.generated ≤ t.counters.generated + size
    pub full : IsFull u.max size m
    pub lasts : outside.cancelled t.world ≡ true → outside.cancelled v.world ≡ true
    pub nearer :
        (b : ℕ)
        → outside.cancelled t.world ≡ false
        → Enough u.max size l t.counters.generated b
        → Enough u.max size m v.counters.generated (b - 1)
          ⊎ ((outside.cancelled v.world ≡ true) × (turns_left m ≤ b - 1))

  abbrev pub GoesTo : Local T G → State outside → Option (Local T G × State outside) → Type 0
  GoesTo l t none = ⊥
  GoesTo l t (some (m, v)) = Goes l t m v

  module _ (c : IsContext e) (f : FillsUp u size) (period : log_period outside u.batch ≢ 0)
      (limit : 0 < u.max) (t : State outside) (room : t.counters.generated + size < 2 ^ 64) where
    abbrev made : ℕ
    made = t.counters.generated

    -- A step that counts no spans.
    uncounted :
        {l m : Local T G} {v : State outside}
        → v.counters.generated ≡ made
        → IsFull u.max size m
        → (outside.cancelled t.world ≡ true → outside.cancelled v.world ≡ true)
        → ((b : ℕ)
            → outside.cancelled t.world ≡ false
            → Enough u.max size l made b
            → Enough u.max size m v.counters.generated (b - 1))
        → Goes l t m v
    uncounted same full lasts nearer = record {
      grows = omega (arith, same);
      bounded = omega (arith, same);
      full = full;
      lasts = lasts;
      nearer = λ b going h. inl (nearer b going h);
    }

    next : (p q b : ℕ) → q < p → Rounds u.max size p made b → Rounds u.max size q made (b - 1)
    next p q b less h = next_Rounds u.max size p q made made b less (omega arith) h

    looping-Goes : (g : G) → GoesTo (looping g) t (advance e u (looping g) t)
    unfolding advance
    looping-Goes g = elim (Bool-cases (outside.cancelled t.world)) [
      | inl q ↦ rw (q, advance) (uncounted refl tt (λ d. d) (λ b going h. tt))
      | inr q ↦ rw (q, advance) (filled (f.fills g))
    ]
      where
        filled :
            (r : ℕ × T × G) × (u.fill g ≡ some r) × (r.0 ≡ size)
            → GoesTo (looping g) t (Code.filled e u (u.fill g) t)
        filled ((n, td, h), given, full) =
            rw given (uncounted refl full (λ d. d) (λ b going h. next 5 4 b (omega arith) h))

    generated-Goes :
        (g : G) (td : T) (n : ℕ)
        → n ≡ size
        → Goes (generated g td n) t (behind_count e u g td n (add_u64 made n)) (count_batch e u n t)
    unfolding behind_count count_batch
    generated-Goes g td n full =
        let some_limit : (u.max == 0) ≡ false = ground arith in
        rw some_limit (by_limit (leb u.max (add_u64 made n)) refl)
      where
        total : add_u64 made n ≡ made + size
        total = omega (arith, full, room)

        by_limit :
            (b : Bool)
            → leb u.max (add_u64 made n) ≡ b
            → Goes
                (generated g td n)
                t
                (if b then reached g td n else counted g td n)
                (count_batch e u n t)
        by_limit true over = record {
          grows = omega (arith, total);
          bounded = omega (arith, total);
          full = tt;
          lasts = λ d. d;
          nearer = λ b going h. inl (record {
            rounds = 0;
            covers = ground (arith, over);
            enough = omega (arith, h.enough);
          });
        }
        by_limit false under = record {
          grows = omega (arith, total);
          bounded = omega (arith, total);
          full = tt;
          lasts = λ d. d;
          nearer = λ b going h.
              inl (rw total (counted_Rounds u.max size made b (ground (arith, under, total)) h));
        }

    counted-Goes :
        (g : G) (td : T) (n : ℕ)
        → GoesTo (counted g td n) t (some (pace e u g td n (note outside (spans_generated n) t)))
    unfolding pace
    counted-Goes g td n = by_limit u.limited
      where
        answered :
            (m : Bool × outside.World)
            → (outside.cancelled t.world ≡ true → outside.cancelled m.1 ≡ true)
            → GoesTo
                (counted g td n)
                t
                (some (Code.after_wait e u g td n (note outside (spans_generated n) t) m))
        answered (true, w) lasts =
            uncounted refl tt lasts (λ b going h. next 12 11 b (omega arith) h)
        answered (false, w) lasts = uncounted refl tt lasts (λ b going h. tt)

        by_limit :
            (b : Bool)
            → GoesTo
                (counted g td n)
                t
                (some (Code.pace_by e u b g td n (note outside (spans_generated n) t)))
        by_limit true = answered (e.wait_n n t.world) (c.waits n t.world)
        by_limit false = uncounted refl tt (λ d. d) (λ b going h. next 12 11 b (omega arith) h)

    waited-Goes :
        (g : G) (td : T) (n : ℕ) → GoesTo (waited g td n) t (advance e u (waited g td n) t)
    unfolding advance
    waited-Goes g td n = elim (Bool-cases (outside.cancelled t.world)) [
      | inl q ↦ rw (q, advance) (uncounted refl tt (λ d. d) (λ b going h. tt))
      | inr q ↦
          rw (q, advance) (uncounted refl tt (λ d. d) (λ b going h. next 11 10 b (omega arith) h))
    ]

    trying-Goes :
        (g : G) (td : T) (n k : ℕ) → GoesTo (trying g td n k) t (advance e u (trying g td n k) t)
    unfolding advance
    trying-Goes g td n k = sent (outside.deliver_to_sink td t.world) (c.sends td t.world)
      where
        sent :
            (m : Bool × outside.World)
            → (outside.cancelled t.world ≡ true → outside.cancelled m.1 ≡ true)
            → GoesTo (trying g td n k) t (
                some (
                  Code.answered e u g td n k
                    (m.0, record t { world = m.1; calls = t.calls ++ observe_duration ∷ [] })))
        sent (true, w) lasts =
            uncounted refl tt lasts (λ b going h. next (8 + retries k) 6 b (omega arith) h)
        sent (false, w) lasts =
            uncounted refl tt lasts
              (λ b going h. next (8 + retries k) (7 + retries k) b (omega arith) h)

    refused-Goes :
        (g : G) (td : T) (n k : ℕ)
        → GoesTo (refused g td n k) t (some (try_again e u g td n k (note outside send_errors t)))
    unfolding try_again
    refused-Goes g td n k = elim (Bool-cases (outside.cancelled t.world)) [
      | inl q ↦
          rw (q, try_again)
            (uncounted refl tt (λ d. d) (λ b going h. next (7 + retries k) 6 b (omega arith) h))
      | inr q ↦ rw (q, try_again) (by_attempt k)
    ]
      where
        by_attempt :
            (k : ℕ)
            → GoesTo
                (refused g td n k)
                t
                (some (Code.next_attempt e u g td n k (note outside send_errors t)))
        by_attempt zero =
            uncounted refl tt (c.pauses t.world) (λ b going h. next 9 8 b (omega arith) h)
        by_attempt (suc k) =
            let last : ltb (suc k + 1) send_attempts ≡ false = ground arith in
            rw last (uncounted refl tt (λ d. d) (λ b going h. next 7 6 b (omega arith) h))

    -- No step panics, the counter of generated spans grows by a batch at most, and as long as the run context
    -- is not done, each step brings the worker nearer to the limit and to its return.
    pub advance-Goes : (l : Local T G) → IsFull u.max size l → GoesTo l t (advance e u l t)
    unfolding advance deliver
    advance-Goes (looping g) full = looping-Goes g
    advance-Goes (generated g td n) full = generated-Goes g td n full
    advance-Goes (reached g td n) full = record {
      grows = omega arith;
      bounded = omega arith;
      full = tt;
      lasts = λ d. c.cancels t.world;
      nearer = λ b going h. inr (c.cancels t.world, omega (arith, h.enough));
    }
    advance-Goes (counted g td n) full = counted-Goes g td n
    advance-Goes (waited g td n) full = waited-Goes g td n
    advance-Goes (trying g td n k) full = trying-Goes g td n k
    advance-Goes (accepting g n) full =
        uncounted refl tt (λ d. d) (λ b going h. next 6 5 b (omega arith) h)
    advance-Goes (refused g td n k) full = refused-Goes g td n k
    advance-Goes (dropping g n) full =
        let no_panic : (log_period outside u.batch == 0) ≡ false = ground arith in
        rw (no_panic, advance)
          (uncounted refl tt (λ d. d) (λ b going h. next 6 5 b (omega arith) h))
    advance-Goes returned full = uncounted refl tt (λ d. d) (λ b going h. tt)
