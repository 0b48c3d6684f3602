-- ===== src/Engine/Schedule/Keeps.antt =====
-- What holds of the surroundings, and is kept by each call on them, holds behind every schedule.
use spangen.Base.{
  ℕ, ◌+◌, ◌≡◌, refl, inl, inr, List, [], ◌∷◌, ◌++◌, Option, none, some, subst, Bool, true, false,
  Bool-cases, get_elem?, ◌==◌, ltb,
}
use spangen.Engine.{observe_duration, spans_generated, send_attempts, send_errors}
use spangen.Engine.Send.{State, note, log_period}
use spangen.Engine.Schedule.{
  Environment, Local, looping, generated, reached, counted, waited, trying, accepting, refused,
  dropping, returned, Setup, Turn, work, other, filled, after_wait, pace_by, pace, answered,
  next_attempt, try_again, back_to, advance, Workers, happen, schedule,
}
use spangen.Engine.Schedule as Code

pub record IsKept {T : Type 0} (e : Environment T) (P : e.outside.World → Type 0) : Type 0 where
  pub sends : (td : T) (w : e.outside.World) → P w → P (e.outside.deliver_to_sink td w).1
  pub pauses : (w : e.outside.World) → P w → P (e.outside.pause w)
  pub waits : (n : ℕ) (w : e.outside.World) → P w → P (e.wait_n n w).1
  pub cancels : (w : e.outside.World) → P w → P (e.cancel w)
  pub elapses : (w : e.outside.World) → P w → P (e.elapse w)

module _ {T G : Type 0} (e : Environment T) (u : Setup T G) (P : e.outside.World → Type 0)
    (k : IsKept e P) where
  open e use {outside}

  abbrev Kept : Option (Local T G × State outside) → Type 0
  Kept none = Unit
  Kept (some (m, t)) = P t.world

  module _ (t : State outside) (h : P t.world) where
    filled-Kept : (m : Option (ℕ × T × G)) → Kept (filled e u m t)
    filled-Kept none = tt
    filled-Kept (some (n, td, g)) = h

    pace_by-Kept :
        (b : Bool) (g : G) (td : T) (n : ℕ)
        → Kept (some (pace_by e u b g td n (note outside (spans_generated n) t)))
    pace_by-Kept false g td n = h
    pace_by-Kept true g td n = answer (e.wait_n n t.world) (k.waits n t.world h)
      where
        answer :
            (m : Bool × outside.World)
            → P m.1
            → Kept (some (after_wait e u g td n (note outside (spans_generated n) t) m))
        answer (true, w) p = p
        answer (false, w) p = p

    answered-Kept :
        (g : G) (td : T) (n i : ℕ) (m : Bool × outside.World)
        → P m.1
        → Kept (
            some (
              answered e u g td n i
                (m.0, record t { world = m.1; calls = t.calls ++ observe_duration ∷ [] })))
    answered-Kept g td n i (true, w) p = p
    answered-Kept g td n i (false, w) p = p

    try_again-Kept :
        (g : G) (td : T) (n i : ℕ)
        → Kept (some (try_again e u g td n i (note outside send_errors t)))
    unfolding try_again
    try_again-Kept g td n i = elim (Bool-cases (outside.cancelled t.world)) [
      | inl q ↦ rw (q, try_again) h
      | inr q ↦ rw (q, try_again) (by_attempt (ltb (i + 1) send_attempts) refl)
    ]
      where
        by_attempt :
            (b : Bool)
            → ltb (i + 1) send_attempts ≡ b
            → Kept (some (next_attempt e u g td n i (note outside send_errors t)))
        by_attempt true q = rw q (k.pauses t.world h)
        by_attempt false q = rw q h

    advance-Kept : (l : Local T G) → Kept (advance e u l t)
    unfolding advance pace
    advance-Kept (looping g) = elim (Bool-cases (outside.cancelled t.world)) [
      | inl q ↦ rw (q, advance) h
      | inr q ↦ rw (q, advance) (filled-Kept (u.fill g))
    ]
    advance-Kept (generated g td n) = h
    advance-Kept (reached g td n) = k.cancels t.world h
    advance-Kept (counted g td n) = pace_by-Kept u.limited g td n
    advance-Kept (waited g td n) = elim (Bool-cases (outside.cancelled t.world)) [
      | inl q ↦ rw (q, advance) h
      | inr q ↦ rw (q, advance) h
    ]
    advance-Kept (trying g td n i) =
        answered-Kept g td n i (outside.deliver_to_sink td t.world) (k.sends td t.world h)
    advance-Kept (accepting g n) = h
    advance-Kept (refused g td n i) = try_again-Kept g td n i
    advance-Kept (dropping g n) = elim (Bool-cases (log_period outside u.batch == 0)) [
      | inl q ↦ rw (q, advance) tt
      | inr q ↦ rw (q, advance) h
    ]
    advance-Kept returned = h

  abbrev AllKept : Option (Workers e u) → Type 0
  AllKept none = Unit
  AllKept (some ws) = P ws.state.world

  happen-Kept : (x : Turn) (ws : Workers e u) → P ws.state.world → AllKept (happen e u x ws)
  unfolding happen
  happen-Kept other ws h = k.elapses ws.state.world h
  happen-Kept (work i) ws h = by_place (get_elem? ws.locals i) refl
    where
      moved : (m : Option (Local T G × State outside)) → Kept m → AllKept (Code.moved e u i ws m)
      moved none p = tt
      moved (some (l, t)) p = p

      by_place :
          (l : Option (Local T G)) → get_elem? ws.locals i ≡ l → AllKept (happen e u (work i) ws)
      by_place none q = rw (q, happen) h
      by_place (some l) q =
          rw (q, happen) (moved (advance e u l ws.state) (advance-Kept ws.state h l))

  schedule-AllKept :
      (xs : List Turn) (ws : Workers e u) → P ws.state.world → AllKept (schedule e u xs ws)
  unfolding schedule
  schedule-AllKept [] ws h = h
  schedule-AllKept (x ∷ xs) ws h =
      going (happen e u x ws) (happen-Kept x ws h) (λ next. schedule-AllKept xs next)
    where
      going :
          (m : Option (Workers e u))
          → AllKept m
          → ((next : Workers e u) → P next.state.world → AllKept (schedule e u xs next))
          → AllKept (Code.behind e u (schedule e u xs) m)
      going none p rest = tt
      going (some next) p rest = rest next p

  pub schedule-keeps :
      (xs : List Turn) (ws : Workers e u) {end : Workers e u}
      → P ws.state.world
      → schedule e u xs ws ≡ some end
      → P end.state.world
  schedule-keeps xs ws h q = subst AllKept q (schedule-AllKept xs ws h)
