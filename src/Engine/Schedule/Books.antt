-- ===== src/Engine/Schedule/Books.antt =====
-- Whatever the schedule, the counter of sent spans follows the rows that the sink has taken.
use spangen.Base.{
  ℕ, ◌+◌, ◌%◌, ◌^◌, ◌≡◌, refl, sym, ap, ◌∙◌, List, [], ◌∷◌, map, Option, none, some, subst,
  get_elem?, All, All-get_elem?, sum_of, arith,
}
use spangen.Engine.Send.{State}
use spangen.Engine.Schedule.{
  Environment, Local, looping, generated, reached, counted, waited, trying, accepting, refused,
  dropping, returned, Setup, Turn, work, other, filled, after_wait, pace_by, pace, answered,
  count_batch, behind_count, next_attempt, try_again, advance, Workers, start_all, happen, schedule,
}
use spangen.Engine.Schedule as Code
use spangen.Engine.Schedule.Runs.{All-set}
use spangen.Engine.Schedule.Stored.{
  IsStore, IsMeasured, HasCount, to_count, sum_of-set, Booked, advance-Booked,
}

module _ {T G : Type 0} (e : Environment T) (u : Setup T G) (rows : T → ℕ) (s : IsStore e rows)
    (f : IsMeasured u rows) where
  open e use {outside}
  open s use {stored}

  record Agrees (base : ℕ) (ws : Workers e u) : Type 0 where
    pub same :
        (base + ws.state.counters.sent + sum_of to_count ws.locals) % 2 ^ 64
        ≡ stored ws.state.world % 2 ^ 64
    pub has : All (HasCount rows) ws.locals

  abbrev AllAgree : ℕ → Option (Workers e u) → Type 0
  AllAgree base none = Unit
  AllAgree base (some ws) = Agrees base ws

  worked :
      {base : ℕ} (i : ℕ) (ws : Workers e u) {l : Local T G}
      → Agrees base ws
      → get_elem? ws.locals i ≡ some l
      → (m : Option (Local T G × State outside)) → Booked e u rows s f l ws.state m
      → AllAgree base (Code.moved e u i ws m)
  worked i ws h at none b = tt
  worked i ws h at (some (m, v)) b = record {
    same = omega (arith, b.same, h.same, sum_of-set to_count ws.locals i m at);
    has = All-set (HasCount rows) ws.locals i m h.has b.has;
  }

  happen-AllAgree :
      {base : ℕ} (x : Turn) (ws : Workers e u) → Agrees base ws → AllAgree base (happen e u x ws)
  unfolding happen
  happen-AllAgree other ws h = record {
    same = h.same ∙ ap (λ n. n % 2 ^ 64) (sym (s.elapses ws.state.world));
    has = h.has;
  }
  happen-AllAgree {base} (work i) ws h = by_place (get_elem? ws.locals i) refl
    where
      by_place :
          (l : Option (Local T G))
          → get_elem? ws.locals i ≡ l
          → AllAgree base (happen e u (work i) ws)
      by_place none q = rw (q, happen) h
      by_place (some l) q =
          rw (q, happen)
            (worked i ws h q (advance e u l ws.state) (
              advance-Booked e u rows s f ws.state l
                (All-get_elem? (HasCount rows) ws.locals i h.has q)))

  schedule-AllAgree :
      {base : ℕ} (xs : List Turn) (ws : Workers e u)
      → Agrees base ws
      → AllAgree base (schedule e u xs ws)
  unfolding schedule
  schedule-AllAgree [] ws h = h
  schedule-AllAgree {base} (x ∷ xs) ws h =
      going (happen e u x ws) (happen-AllAgree x ws h) (λ next. schedule-AllAgree xs next)
    where
      going :
          (m : Option (Workers e u))
          → AllAgree base m
          → ((next : Workers e u) → Agrees base next → AllAgree base (schedule e u xs next))
          → AllAgree base (Code.behind e u (schedule e u xs) m)
      going none b rest = tt
      going (some next) b rest = rest next b

  new_HasCount : (gens : List G) → All (HasCount rows) (map looping gens)
  new_HasCount [] = tt
  new_HasCount (g ∷ gens) = (tt, new_HasCount gens)

  nothing_to_count : (gens : List G) → sum_of (to_count {T = T}) (map looping gens) ≡ 0
  unfolding sum_of
  nothing_to_count [] = refl
  nothing_to_count (g ∷ gens) = omega (arith, nothing_to_count gens)

  -- Under every schedule, the rows that the sink takes in a run are, modulo 2^64, the spans counted as sent
  -- and those of the batches that it has taken and the workers have still to count.
  pub schedule-stored :
      (gens : List G) (w : outside.World) (xs : List Turn) {end : Workers e u}
      → schedule e u xs (start_all e u gens w) ≡ some end
      → (stored w + end.state.counters.sent + sum_of to_count end.locals) % 2 ^ 64
        ≡ stored end.state.world % 2 ^ 64
  unfolding start_all
  schedule-stored gens w xs q =
      (subst (AllAgree (stored w)) q (
        schedule-AllAgree xs (start_all e u gens w) (record {
          same = ap (λ n. n % 2 ^ 64) (omega (arith, nothing_to_count gens));
          has = new_HasCount gens;
        }))).same
