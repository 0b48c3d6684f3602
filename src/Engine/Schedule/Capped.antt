-- ===== src/Engine/Schedule/Capped.antt =====
-- A run with a span limit ends, under every schedule.
use spangen.Base.{
  ℕ, zero, suc, ◌+◌, ◌-◌, ◌*◌, ◌^◌, ◌≤◌, ◌<◌, ◌≡◌, subst, ◌≢◌, ◌⊎◌, inl, inr, List, [], ◌∷◌, map,
  length, length-map, get_elem?, All, All-indices, Option, none, some, some-injective, true, false,
  Bool-cases, arith,
}
use spangen.Engine.Send.{State, log_period}
use spangen.Engine.Schedule.{
  Environment, Local, looping, returned, Setup, Turn, advance, Workers, start_all, schedule,
}
use spangen.Engine.Schedule.Follows.{IsContext}
use spangen.Engine.Schedule.Turns.{turns, turns_left, none_left, Ends, advance-Ends}
use spangen.Engine.Schedule.Countdown.{GoesOn, IsCountdown, Within, schedule-Within}
use spangen.Engine.Schedule.Rounds.{FillsUp, Enough, IsFull, Enough-left, Enough-more}
use spangen.Engine.Schedule.Going.{GoesTo, advance-Goes}

module _ {T G : Type 0} (e : Environment T) (u : Setup T G) (size : ℕ) where
  open e use {outside}

  -- The counter of generated spans has room for a batch of each event to come.
  abbrev HasRoom : ℕ → State outside → Type 0
  HasRoom k t = t.counters.generated + k * size < 2 ^ 64

  record Holds (l : Local T G) (t : State outside) (b : ℕ) : Type 0 where
    pub full : IsFull u.max size l
    pub ended : outside.cancelled t.world ≡ true → turns_left l ≤ b
    pub going : outside.cancelled t.world ≡ false → Enough u.max size l t.counters.generated b

  Holds-left : (l : Local T G) (t : State outside) (b : ℕ) → Holds l t b → turns_left l ≤ b
  Holds-left l t b h = elim (Bool-cases (outside.cancelled t.world)) [
    | inl q ↦ h.ended q
    | inr q ↦ Enough-left u.max size l t.counters.generated b (h.going q)
  ]

  -- What others do costs a worker no turn.
  Holds-kept :
      (t v : State outside)
      → t.counters.generated ≤ v.counters.generated
      → (outside.cancelled t.world ≡ true → outside.cancelled v.world ≡ true)
      → (l : Local T G) (b : ℕ) → Holds l t b
      → Holds l v b
  Holds-kept t v grows lasts l b h = record {
    full = h.full;
    ended = λ _. Holds-left l t b h;
    going = λ q. elim (Bool-cases (outside.cancelled t.world)) [
      | inl r ↦ cc (lasts r, q)
      | inr r ↦
          Enough-more u.max size l t.counters.generated v.counters.generated b grows (h.going r)
    ];
  }

  module _ (c : IsContext e) (f : FillsUp u size) (period : log_period outside u.batch ≢ 0)
      (limit : 0 < u.max) where
    onward :
        (k b : ℕ) (l : Local T G) (t : State outside)
        → HasRoom (suc k) t
        → Holds l t b
        → (m : Option (Local T G × State outside)) → GoesTo e u size l t m
        → (outside.cancelled t.world ≡ true → Ends e u l m)
        → GoesOn e u HasRoom Holds k t b m
    onward k b l t room h none n d = elim n [ ]
    onward k b l t room h (some (m, v)) n d = record {
      inv = omega (arith, room, n.bounded);
      holds = by_end (Bool-cases (outside.cancelled t.world));
      stays = λ x b. Holds-kept t v n.grows n.lasts x b;
    }
      where
        by_end :
            (outside.cancelled t.world ≡ true) ⊎ (outside.cancelled t.world ≡ false)
            → Holds m v (b - 1)
        by_end (inl q) = record {
          full = n.full;
          ended = λ _. omega (arith, (d q).left, h.ended q);
          going = λ r. cc (n.lasts q, r);
        }
        by_end (inr q) = elim (n.nearer b q (h.going q)) [
          | inl near ↦ record {
            full = n.full;
            ended = λ _. Enough-left u.max size m v.counters.generated (b - 1) near;
            going = λ _. near;
          }
          | inr last ↦ record { full = n.full; ended = λ _. last.1; going = λ r. cc (last.0, r) }
        ]

    capped : IsCountdown e u HasRoom Holds
    capped = record {
      advances = λ k b l t room h.
          onward k b l t room h (advance e u l t)
            (advance-Goes e u size c f period limit t (omega (arith, room)) l h.full)
            (λ done. advance-Ends e u c period t done l);
      elapses = λ k t room. (
        omega (arith, room),
        λ l b.
            Holds-kept t (record t { world = e.elapse t.world }) (omega arith) (c.elapses t.world) l
              b,
      );
      idles = λ k t room. omega (arith, room);
      weakens = λ l t b d same h. subst (Holds l t) same h;
    }

    begun :
        (rounds : ℕ) (gens : List G) (w : outside.World) (i : ℕ) (l : Local T G)
        → u.max ≤ rounds * size
        → get_elem? (map looping gens) i ≡ some l
        → Holds l (start_all e u gens w).state (9 * rounds + 5)
    unfolding start_all
    begun rounds [] w i l enough at = cc
    begun rounds (g ∷ gens) w zero l enough at =
        subst (λ x. Holds x (start_all e u (g ∷ gens) w).state (9 * rounds + 5))
          (some-injective (looping g) l at)
          (record {
            full = tt;
            ended = λ _. omega arith;
            going = λ _. record {
              rounds = rounds;
              covers = omega (arith, enough);
              enough = omega arith;
            };
          })
    begun rounds (g ∷ gens) w (suc i) l enough at = begun rounds gens w i l enough at

    -- With a span limit, of which so many full batches are enough, a run ends: under every schedule that gives
    -- each worker nine turns for each of these batches and five more, the workers' code goes on without a panic
    -- until all have returned, whatever the sink and the limiter do. This over a run context of which nothing
    -- takes the end back, for a log period other than zero, and a schedule of so few events that the counter of
    -- generated spans does not wrap.
    pub schedule-ends :
        (rounds : ℕ) (gens : List G) (w : outside.World) (xs : List Turn)
        → u.max ≤ rounds * size
        → length xs * size < 2 ^ 64
        → ((i : ℕ) → i < length gens → 9 * rounds + 5 ≤ turns i xs)
        → (end : Workers e u) × (schedule e u xs (start_all e u gens w) ≡ some end)
          × (length end.locals ≡ length gens)
          × All (λ l. l ≡ returned) end.locals
    unfolding start_all
    schedule-ends rounds gens w xs enough few fair =
        let start : Within e u HasRoom Holds (length gens) (length xs) (λ _. 9 * rounds + 5)
            (start_all e u gens w) =
          record {
            inv = omega (arith, few);
            left = λ i l at. begun rounds gens w i l enough at;
            same = length-map looping gens;
          } in
        let (end, q, h) =
          schedule-Within e u HasRoom Holds capped xs (λ _. 9 * rounds + 5) (start_all e u gens w)
            start in
        (
          end,
          q,
          h.same,
          All-indices (λ l. l ≡ returned) end.locals
              λ i l lt at. none_left l (
                omega (
                  arith,
                  Holds-left l end.state (9 * rounds + 5 - turns i xs) (h.left i l at),
                  fair i (omega (arith, lt, h.same)),
                )),
        )
