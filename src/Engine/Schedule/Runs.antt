-- ===== src/Engine/Schedule/Runs.antt =====
-- Whatever the schedule, the workers' code keeps within the step relation of the workers.
use spangen.Base.{
  ℕ, zero, suc, ◌+◌, ◌*◌, ◌≤◌, ◌≡◌, refl, sym, ap, ◌∙◌, subst, ◌≢◌, ◌⊎◌, inl, inr, List, [], ◌∷◌,
  ◌++◌, map, length, All, All-get_elem?, get_elem?, set, Option, none, some, some-injective, true,
  false, Bool-cases, arith,
}
use spangen.Engine.Send.{State, log_period}
use spangen.Engine.Workers.{Shared, Pc, Move, System, work, outside, Reach, later, cancel}
use spangen.Engine.Schedule.{
  Environment, Local, looping, Setup, Turn, other, advance, Workers, happen, schedule,
}
use spangen.Engine.Schedule as Code
use spangen.Engine.Schedule.Follows.{IsContext, Fills, pc, spans_in, Follows, Steps, steps}
use spangen.Engine.Schedule.Simulation.{advance-Steps}

module _ {T G : Type 0} where
  -- The places of the others, when worker i goes from l to m.
  place :
      (ls : List (Local T G)) (i : ℕ) {l : Local T G} (m : Local T G)
      → get_elem? ls i ≡ some l
      → (before : List Pc) × (after : List Pc) × (map pc ls ≡ before ++ pc l ∷ after)
        × (map pc (set ls i m) ≡ before ++ pc m ∷ after)
  place [] i m h = cc
  place (x ∷ ls) zero {l} m h =
      ([], map pc ls, ap (λ y. pc y ∷ map pc ls) (some-injective x l h), refl)
  place (x ∷ ls) (suc i) m h =
      let (before, after, e, f) = place ls i m h in
      (pc x ∷ before, after, ap (◌∷◌ (pc x)) e, ap (◌∷◌ (pc x)) f)

  pub All-set :
      (P : Local T G → Type 0) (ls : List (Local T G)) (i : ℕ) (m : Local T G)
      → All P ls
      → P m
      → All P (set ls i m)
  All-set P [] i m h p = tt
  All-set P (x ∷ ls) zero m h p = (p, h.1)
  All-set P (x ∷ ls) (suc i) m h p = (h.0, All-set P ls i m h.1 p)

module _ {T G : Type 0} (e : Environment T) (u : Setup T G) (size : ℕ) where
  -- The state of the relation that the workers are in, behind so many events.
  pub record Tracks (n events : ℕ) (ws : Workers e u) : Type 0 where
    pub system : System
    pub reach : Reach u.max u.limited n system
    pub shape : system.workers ≡ map pc ws.locals
    pub counters : system.shared.counters ≡ ws.state.counters
    pub flag : system.shared.cancelled ≡ e.outside.cancelled ws.state.world
    pub small : All (λ l. spans_in l ≤ size) ws.locals
    pub total : system.shared.total ≤ events * size

  -- The end of the run context may come later in the relation than in the code.
  pub catch_up :
      {n events : ℕ} {ws : Workers e u} (s : System)
      → Reach u.max u.limited n s
      → s.workers ≡ map pc ws.locals
      → s.shared.counters ≡ ws.state.counters
      → (s.shared.cancelled ≡ true → e.outside.cancelled ws.state.world ≡ true)
      → All (λ l. spans_in l ≤ size) ws.locals
      → s.shared.total ≤ events * size
      → Tracks n events ws
  catch_up {n} {events} {ws} s r shape counters done small total =
      by_flags (Bool-cases (e.outside.cancelled ws.state.world)) (Bool-cases s.shared.cancelled)
    where
      tracked :
          (t : System)
          → Reach u.max u.limited n t
          → t.workers ≡ map pc ws.locals
          → t.shared.counters ≡ ws.state.counters
          → t.shared.cancelled ≡ e.outside.cancelled ws.state.world
          → t.shared.total ≤ events * size
          → Tracks n events ws
      tracked t r shape counters flag total = record {
        system = t;
        reach = r;
        shape = shape;
        counters = counters;
        flag = flag;
        small = small;
        total = total;
      }

      by_flags :
          (e.outside.cancelled ws.state.world ≡ true) ⊎ (e.outside.cancelled ws.state.world ≡ false)
          → (s.shared.cancelled ≡ true) ⊎ (s.shared.cancelled ≡ false)
          → Tracks n events ws
      by_flags (inl a) (inl b) = tracked s r shape counters (b ∙ sym a) total
      by_flags (inl a) (inr b) =
          tracked (record s { shared = cancel s.shared }) (later r (outside refl)) shape counters
            (sym a) total
      by_flags (inr a) (inl b) = cc (done b)
      by_flags (inr a) (inr b) = tracked s r shape counters (b ∙ sym a) total

  module _ (c : IsContext e) (f : Fills u size) (period : log_period e.outside u.batch ≢ 0) where
    -- One event.
    abbrev Happened : ℕ → ℕ → Option (Workers e u) → Type 0
    Happened n events none = ⊥
    Happened n events (some ws) = Tracks n events ws

    worked :
        {n events : ℕ} (i : ℕ) (ws : Workers e u) {l : Local T G}
        → (h : Tracks n events ws) → get_elem? ws.locals i ≡ some l
        → Steps e u size h.system.shared (pc l) (advance e u l ws.state)
        → Happened n (suc events) (Code.moved e u i ws (advance e u l ws.state))
    worked {n} {events} i ws {l} h at st = stepped (advance e u l ws.state) st
      where
        moved :
            {m : Local T G} {t : State e.outside}
            → Follows e u size h.system.shared (pc l) m t
            → (before : List Pc) × (after : List Pc) × (map pc ws.locals ≡ before ++ pc l ∷ after)
              × (map pc (set ws.locals i m) ≡ before ++ pc m ∷ after)
            → Tracks n (suc events) (record { locals = set ws.locals i m; state = t })
        moved {m} {t} fo (before, after, old, new) = by_move fo.move
          where
            small : All (λ x. spans_in x ≤ size) (set ws.locals i m)
            small = All-set (λ x. spans_in x ≤ size) ws.locals i m h.small fo.small

            by_move :
                Move u.max u.limited h.system.shared (pc l) fo.shared (pc m)
                  ⊎ ((pc l ≡ pc m) × (fo.shared ≡ h.system.shared))
                → Tracks n (suc events) (record { locals = set ws.locals i m; state = t })
            by_move (inl mv) =
                catch_up (record { shared = fo.shared; workers = before ++ pc m ∷ after })
                  (later h.reach (work before after (h.shape ∙ old) mv refl)) (sym new) fo.counters
                  fo.done small (omega (arith, fo.total, h.total))
            by_move (inr (still, kept)) =
                catch_up h.system h.reach
                  (h.shape ∙ old ∙ ap (λ p. before ++ p ∷ after) still ∙ sym new)
                  (ap (λ (x : Shared). x.counters) (sym kept) ∙ fo.counters)
                  (λ q. fo.done (ap (λ (x : Shared). x.cancelled) kept ∙ q)) small
                  (omega (arith, h.total))

        stepped :
            (m : Option (Local T G × State e.outside))
            → Steps e u size h.system.shared (pc l) m
            → Happened n (suc events) (Code.moved e u i ws m)
        stepped none st = elim st [ ]
        stepped (some (m, t)) (steps fo) = moved fo (place ws.locals i m at)

    happen-Tracks :
        {n events : ℕ} (x : Turn) (ws : Workers e u)
        → Tracks n events ws
        → Happened n (suc events) (happen e u x ws)
    unfolding happen
    happen-Tracks other ws h =
        catch_up h.system h.reach h.shape h.counters
          (λ q. c.elapses ws.state.world (sym h.flag ∙ q)) h.small (omega (arith, h.total))
    happen-Tracks {n} {events} (Turn.work i) ws h = by_place (get_elem? ws.locals i) refl
      where
        by_place :
            (l : Option (Local T G))
            → get_elem? ws.locals i ≡ l
            → Happened n (suc events) (happen e u (Turn.work i) ws)
        by_place none q =
            rw (q, happen)
              (catch_up h.system h.reach h.shape h.counters (λ d. sym h.flag ∙ d) h.small
                (omega (arith, h.total)))
        by_place (some l) q =
            rw (q, happen)
              (worked i ws h q (
                advance-Steps e u size c f period l h.system.shared ws.state h.counters h.flag
                  (All-get_elem? (λ x. spans_in x ≤ size) ws.locals i h.small q)))

    pub schedule-Tracks :
        {n : ℕ} (events : ℕ) (xs : List Turn) (ws : Workers e u)
        → Tracks n events ws
        → (end : Workers e u) × (schedule e u xs ws ≡ some end) × Tracks n (events + length xs) end
    unfolding schedule
    schedule-Tracks {n} events [] ws h = (ws, refl, subst (λ k. Tracks n k ws) (omega arith) h)
    schedule-Tracks {n} events (x ∷ xs) ws h =
        going (happen e u x ws) (happen-Tracks x ws h)
          (λ next. schedule-Tracks (suc events) xs next)
      where
        going :
            (m : Option (Workers e u))
            → Happened n (suc events) m
            → ((next : Workers e u)
                → Tracks n (suc events) next
                → (end : Workers e u) × (schedule e u xs next ≡ some end)
                  × Tracks n (suc events + length xs) end)
            → (end : Workers e u) × (Code.behind e u (schedule e u xs) m ≡ some end)
              × Tracks n (events + suc (length xs)) end
        going none t rest = elim t [ ]
        going (some next) t rest =
            let (end, q, r) = rest next t in (end, q, subst (λ k. Tracks n k end) (omega arith) r)
