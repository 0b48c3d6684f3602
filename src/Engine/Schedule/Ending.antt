-- ===== src/Engine/Schedule/Ending.antt =====
-- The workers' code behind the end of the run context, under every schedule.
use spangen.Base.{
  All, All-indices, ℕ, ◌≤◌, ◌<◌, ◌≡◌, refl, ◌≢◌, List, length, Option, none, some, true, arith,
}
use spangen.Engine.Send.{State, log_period}
use spangen.Engine.Schedule.{Environment, Local, returned, Setup, Turn, advance, Workers, schedule}
use spangen.Engine.Schedule.Follows.{IsContext}
use spangen.Engine.Schedule.Turns.{turns, turns_left, turns_left-le, none_left, Ends, advance-Ends}
use spangen.Engine.Schedule.Countdown.{GoesOn, IsCountdown, schedule-Within}

module _ {T G : Type 0} (e : Environment T) (u : Setup T G) where
  open e use {outside}

  abbrev IsDone : ℕ → State outside → Type 0
  IsDone k t = outside.cancelled t.world ≡ true

  abbrev Left : Local T G → State outside → ℕ → Type 0
  Left l t b = turns_left l ≤ b

  module _ (c : IsContext e) (period : log_period outside u.batch ≢ 0) where
    ending : IsCountdown e u IsDone Left
    ending = record {
      advances = λ k b l t done left.
          onward k b l t left (advance e u l t) (advance-Ends e u c period t done l);
      elapses = λ k t done. (c.elapses t.world done, λ l b left. left);
      idles = λ k t done. done;
      weakens = λ l t b d same left. omega (arith, same, left);
    }
      where
        onward :
            (k b : ℕ) (l : Local T G) (t : State outside)
            → turns_left l ≤ b
            → (m : Option (Local T G × State outside)) → Ends e u l m
            → GoesOn e u IsDone Left k t b m
        onward k b l t left none n = elim n [ ]
        onward k b l t left (some (m, v)) n = record {
          inv = n.done;
          holds = omega (arith, n.left, left);
          stays = λ x d kept. kept;
        }

    -- Once the run context is done, the workers' code goes on without a panic under every schedule, and where that
    -- gives each worker four turns, all have returned. This over a run context of which nothing takes the end
    -- back, and a log period other than zero.
    pub schedule-returned :
        (xs : List Turn) (ws : Workers e u)
        → outside.cancelled ws.state.world ≡ true
        → ((i : ℕ) → i < length ws.locals → 4 ≤ turns i xs)
        → (end : Workers e u) × (schedule e u xs ws ≡ some end)
          × (length end.locals ≡ length ws.locals)
          × All (λ l. l ≡ returned) end.locals
    schedule-returned xs ws done fair =
        let (end, q, h) =
          schedule-Within e u IsDone Left ending xs (λ _. 4) ws
            (record { inv = done; left = λ i l _. turns_left-le l; same = refl }) in
        (
          end,
          q,
          h.same,
          All-indices (λ l. l ≡ returned) end.locals
              λ i l lt at.
                none_left l (omega (arith, h.left i l at, fair i (omega (arith, lt, h.same)))),
        )
