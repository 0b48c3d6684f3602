-- ===== src/Engine/Schedule/Simulation.antt =====
-- Each step of a worker's code is a step of the relation `Move`, or is not seen by it.
use spangen.Base.{
  [], ◌∷◌, ◌++◌, ℕ, ◌+◌, ◌≤◌, ◌≡◌, refl, sym, ap, ◌∙◌, ◌≢◌, ◌⊎◌, inl, inr, some, Bool, true, false,
  Bool-cases, ◌==◌, ltb, leb, if◌then◌else◌, arith,
}
use spangen.Engine.{
  observe_duration, Counters, add_u64, deliver, spans_generated, send_errors, send_attempts,
}
use spangen.Engine.Send.{State, note, log_period}
use spangen.Engine.Workers.{
  Shared, Pc, top, filled, cancelling, counted, waited, sending, stopped, count_spans, discard,
  finish, Move, leave, fill, count_unlimited, count_below, count_reached, cancel_run, unpaced,
  wait_done, wait_failed, drop, begin, end,
}
use spangen.Engine.Schedule.{
  Environment, Local, looping, generated, reached, trying, accepting, refused, dropping, returned,
  Setup, count_batch, behind_count, pace, try_again, advance,
}
use spangen.Engine.Schedule as Code
use spangen.Engine.Workers as Workers
use spangen.Engine.Schedule.Follows.{
  IsContext, Fills, pc, spans_in, Follows, Steps, steps, unseen, seen,
}

module _ {T G : Type 0} (e : Environment T) (u : Setup T G) (size : ℕ) where
  open e use {outside}

  module _ (c : IsContext e) (f : Fills u size) (period : log_period outside u.batch ≢ 0) where
    module _ (s : Shared) (t : State outside) (same : s.counters ≡ t.counters)
        (flag : s.cancelled ≡ outside.cancelled t.world) where
      still : s.cancelled ≡ true → outside.cancelled t.world ≡ true
      still h = sym flag ∙ h

      -- What becomes of a context that stays done.
      kept :
          {w : outside.World}
          → (outside.cancelled t.world ≡ true → outside.cancelled w ≡ true)
          → s.cancelled ≡ true
          → outside.cancelled w ≡ true
      kept stays h = stays (still h)

      looping-Steps : (g : G) → Steps e u size s top (advance e u (looping g) t)
      unfolding advance
      looping-Steps g = elim (Bool-cases (outside.cancelled t.world)) [
        | inl q ↦
            rw (q, advance)
              (steps (seen e u size s (leave (flag ∙ q)) same still (omega arith) (omega arith)))
        | inr q ↦ rw (q, advance) (made (f.fills g) (flag ∙ q))
      ]
        where
          made :
              (r : ℕ × T × G) × (u.fill g ≡ some r) × (r.0 ≤ size)
              → s.cancelled ≡ false
              → Steps e u size s top (Code.filled e u (u.fill g) t)
          made ((m, batch, h), given, le) going =
              rw given (steps (seen e u size s (fill m going) same still le (omega arith)))

      generated-Follows :
          (g : G) (td : T) (n : ℕ)
          → n ≤ size
          → Follows e u size s
              (filled n)
              (behind_count e u g td n (add_u64 t.counters.generated n))
              (count_batch e u n t)
      unfolding behind_count count_batch count_spans
      generated-Follows g td n small = by_limit (Bool-cases (u.max == 0))
        where
          counts : (count_spans n s).counters ≡ (count_batch e u n t).counters
          counts = ap (λ (c : Counters). record c { generated = add_u64 c.generated n }) same

          total : add_u64 s.generated n ≡ add_u64 t.counters.generated n
          total = ap (λ (c : Counters). add_u64 c.generated n) same

          compared :
              (b : Bool)
              → leb u.max (add_u64 t.counters.generated n) ≡ b
              → (u.max == 0) ≡ false
              → Follows e u size s
                  (filled n)
                  (if b then reached g td n else Code.counted g td n)
                  (count_batch e u n t)
          compared true over some_limit =
              seen e u size (count_spans n s) (count_reached (ground arith) (ground (arith, total)))
                counts still small (omega arith)
          compared false under some_limit =
              seen e u size (count_spans n s) (count_below (ground arith) (ground (arith, total)))
                counts still small (omega arith)

          by_limit :
              ((u.max == 0) ≡ true) ⊎ ((u.max == 0) ≡ false)
              → Follows e u size s
                  (filled n)
                  (behind_count e u g td n (add_u64 t.counters.generated n))
                  (count_batch e u n t)
          by_limit (inl no_limit) = rw no_limit (
              seen e u size (count_spans n s) (count_unlimited (ground arith)) counts still small
                (omega arith))
          by_limit (inr some_limit) =
              rw some_limit (compared (leb u.max (add_u64 t.counters.generated n)) refl some_limit)

      abbrev paced : G → T → ℕ → Local T G × State outside
      paced g td n = pace e u g td n (note outside (spans_generated n) t)

      counted-Follows :
          (g : G) (td : T) (n : ℕ)
          → n ≤ size
          → Follows e u size s (counted n) (paced g td n).0 (paced g td n).1
      unfolding pace discard
      counted-Follows g td n small = by_limit u.limited refl
        where
          answered :
              u.limited ≡ true
              → (m : Bool × outside.World)
              → (outside.cancelled t.world ≡ true → outside.cancelled m.1 ≡ true)
              → Follows e u size s
                  (counted n)
                  (Code.after_wait e u g td n (note outside (spans_generated n) t) m).0
                  (Code.after_wait e u g td n (note outside (spans_generated n) t) m).1
          answered limited (true, w) stays =
              seen e u size s (wait_done limited) same (kept stays) small (omega arith)
          answered limited (false, w) stays =
              seen e u size (discard n s) (wait_failed limited) same (kept stays) (omega arith)
                (omega arith)

          by_limit :
              (b : Bool)
              → u.limited ≡ b
              → Follows e u size s
                  (counted n)
                  (Code.pace_by e u b g td n (note outside (spans_generated n) t)).0
                  (Code.pace_by e u b g td n (note outside (spans_generated n) t)).1
          by_limit true limited = answered limited (e.wait_n n t.world) (c.waits n t.world)
          by_limit false unlimited =
              seen e u size s (unpaced unlimited) same still small (omega arith)

      waited-Steps :
          (g : G) (td : T) (n : ℕ)
          → n ≤ size
          → Steps e u size s (waited n) (advance e u (Code.waited g td n) t)
      unfolding advance discard
      waited-Steps g td n small = elim (Bool-cases (outside.cancelled t.world)) [
        | inl q ↦
            rw (q, advance)
              (steps (
                seen e u size (discard n s) (drop (flag ∙ q)) same still (omega arith)
                  (omega arith)))
        | inr q ↦
            rw (q, advance)
              (steps (seen e u size s (begin (flag ∙ q)) same still small (omega arith)))
      ]

      trying-Steps :
          (g : G) (td : T) (n k : ℕ)
          → n ≤ size
          → Steps e u size s (sending n) (advance e u (trying g td n k) t)
      unfolding advance
      trying-Steps g td n k small = sent (outside.deliver_to_sink td t.world) (c.sends td t.world)
        where
          sent :
              (m : Bool × outside.World)
              → (outside.cancelled t.world ≡ true → outside.cancelled m.1 ≡ true)
              → Steps e u size s (sending n) (
                  some (
                    Code.answered e u g td n k
                      (m.0, record t { world = m.1; calls = t.calls ++ observe_duration ∷ [] })))
          sent (true, w) stays = steps (unseen e u size s (sending n) refl same (kept stays) small)
          sent (false, w) stays = steps (unseen e u size s (sending n) refl same (kept stays) small)

      abbrev again : G → T → ℕ → ℕ → Local T G × State outside
      again g td n k = try_again e u g td n k (note outside send_errors t)

      refused-Follows :
          (g : G) (td : T) (n k : ℕ)
          → n ≤ size
          → Follows e u size s (sending n) (again g td n k).0 (again g td n k).1
      unfolding try_again
      refused-Follows g td n k small = elim (Bool-cases (outside.cancelled t.world)) [
        | inl q ↦ rw (q, try_again) (unseen e u size s (sending n) refl same still small)
        | inr q ↦ rw (q, try_again) (by_attempt (ltb (k + 1) send_attempts) refl)
      ]
        where
          by_attempt :
              (b : Bool)
              → ltb (k + 1) send_attempts ≡ b
              → Follows e u size s
                  (sending n)
                  (Code.next_attempt e u g td n k (note outside send_errors t)).0
                  (Code.next_attempt e u g td n k (note outside send_errors t)).1
          by_attempt true q =
              rw q (unseen e u size s (sending n) refl same (kept (c.pauses t.world)) small)
          by_attempt false q = rw q (unseen e u size s (sending n) refl same still small)

      dropping-Steps : (g : G) (n : ℕ) → Steps e u size s (sending n) (advance e u (dropping g n) t)
      unfolding advance finish
      dropping-Steps g n =
          rw (no_panic, advance)
            (steps (
              seen e u size (finish false n s) (end false) (ap (deliver false n) same) still
                (omega arith) (omega arith)))
        where
          no_panic : (log_period outside u.batch == 0) ≡ false
          no_panic = ground arith

    -- Each step of a worker's code, seen from the shared state, is a step of the relation or none. No step
    -- panics, and a worker never has more spans in its hand than a batch may have.
    pub advance-Steps :
        (l : Local T G) (s : Shared) (t : State outside)
        → s.counters ≡ t.counters
        → s.cancelled ≡ outside.cancelled t.world
        → spans_in l ≤ size
        → Steps e u size s (pc l) (advance e u l t)
    unfolding advance finish
    advance-Steps (looping g) s t same flag small = looping-Steps s t same flag g
    advance-Steps (generated g td n) s t same flag small =
        steps (generated-Follows s t same flag g td n small)
    advance-Steps (reached g td n) s t same flag small = steps (
        seen e u size (Workers.cancel s) cancel_run same (λ _. c.cancels t.world) small
          (omega arith))
    advance-Steps (Code.counted g td n) s t same flag small =
        steps (counted-Follows s t same flag g td n small)
    advance-Steps (Code.waited g td n) s t same flag small = waited-Steps s t same flag g td n small
    advance-Steps (trying g td n k) s t same flag small = trying-Steps s t same flag g td n k small
    advance-Steps (accepting g n) s t same flag small = steps (
        seen e u size (finish true n s) (end true) (ap (deliver true n) same) (λ h. sym flag ∙ h)
          (omega arith) (omega arith))
    advance-Steps (refused g td n k) s t same flag small =
        steps (refused-Follows s t same flag g td n k small)
    advance-Steps (dropping g n) s t same flag small = dropping-Steps s t same flag g n
    advance-Steps returned s t same flag small =
        steps (unseen e u size s stopped refl same (λ h. sym flag ∙ h) small)
