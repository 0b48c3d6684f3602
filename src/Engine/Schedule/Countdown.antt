-- ===== src/Engine/Schedule/Countdown.antt =====
-- A number of turns within which each worker returns: what every step has to keep, and what follows for
-- a schedule.
use spangen.Base.{
  ℕ, suc, ◌-◌, ◌≡◌, refl, sym, ap, ◌∙◌, subst, ◌≢◌, ◌⊎◌, inl, inr, List, [], ◌∷◌, length, get_elem?,
  length-set, Option, none, some, true, false, ◌==◌, arith,
}
use spangen.Engine.Send.{State}
use spangen.Engine.Schedule.{
  Environment, Local, looping, generated, reached, counted, waited, trying, accepting, refused,
  dropping, returned, Setup, Turn, work, other, behind_count, pace, try_again, advance, Workers,
  happen, schedule,
}
use spangen.Engine.Schedule as Code
use spangen.Engine.Schedule.Turns.{set-cases, turns, turns-first}

module _ {T G : Type 0} (e : Environment T) (u : Setup T G) where
  open e use {outside}

  module _ (Inv : ℕ → State outside → Type 0) (Holds : Local T G → State outside → ℕ → Type 0) where
    -- What holds for one worker stays when another takes a step.
    abbrev pub Stays : State outside → State outside → Type 0
    Stays t v = (l : Local T G) (b : ℕ) → Holds l t b → Holds l v b

    pub record Onward (k : ℕ) (t : State outside) (b : ℕ) (m : Local T G) (v : State outside)
        : Type 0 where
      pub inv : Inv k v
      pub holds : Holds m v (b - 1)
      pub stays : Stays t v

    abbrev pub GoesOn : ℕ → State outside → ℕ → Option (Local T G × State outside) → Type 0
    GoesOn k t b none = ⊥
    GoesOn k t b (some (m, v)) = Onward k t b m v

    -- With so many events to come, `Inv` holds of what the workers share, and `Holds` of each worker and the
    -- turns that it has left.
    pub record IsCountdown : Type 0 where
      pub advances :
          (k b : ℕ) (l : Local T G) (t : State outside)
          → Inv (suc k) t
          → Holds l t b
          → GoesOn k t b (advance e u l t)
      pub elapses :
          (k : ℕ) (t : State outside)
          → Inv (suc k) t
          → Inv k (record t { world = e.elapse t.world })
            × Stays t (record t { world = e.elapse t.world })
      pub idles : (k : ℕ) (t : State outside) → Inv (suc k) t → Inv k t
      pub weakens :
          (l : Local T G) (t : State outside) (b c : ℕ) → b ≡ c → Holds l t b → Holds l t c

    -- The workers, with so many events to come and so many turns left for each.
    pub record Within (count k : ℕ) (b : ℕ → ℕ) (ws : Workers e u) : Type 0 where
      pub inv : Inv k ws.state
      pub left : (i : ℕ) (l : Local T G) → get_elem? ws.locals i ≡ some l → Holds l ws.state (b i)
      pub same : length ws.locals ≡ count

    abbrev AreWithin : ℕ → ℕ → (ℕ → ℕ) → Option (Workers e u) → Type 0
    AreWithin count k b none = ⊥
    AreWithin count k b (some ws) = Within count k b ws

    module _ (c : IsCountdown) where
      worked :
          {count k : ℕ} {b : ℕ → ℕ} (j : ℕ) (ws : Workers e u)
          → Within count (suc k) b ws
          → (m : Option (Local T G × State outside)) → GoesOn k ws.state (b j) m
          → AreWithin count k (λ i. b i - turns i (work j ∷ [])) (Code.moved e u j ws m)
      unfolding turns
      worked j ws h none n = elim n [ ]
      worked {b = b} j ws h (some (m, t)) n = record {
        inv = n.inv;
        left = λ i l q. by_place i l (set-cases ws.locals j m i q);
        same = length-set ws.locals j m ∙ h.same;
      }
        where
          by_place :
              (i : ℕ) (l : Local T G)
              → ((i ≡ j) × (l ≡ m)) ⊎ ((i ≢ j) × (get_elem? ws.locals i ≡ some l))
              → Holds l t (b i - turns i (work j ∷ []))
          by_place i l (inl (q, r)) =
              let this : (i == j) ≡ true = ground arith in
              rw this (
                c.weakens l t (b j - 1) (b i - 1) (ap (λ x. b x - 1) (sym q))
                  (subst (λ x. Holds x t (b j - 1)) (sym r) n.holds))
          by_place i l (inr (q, r)) =
              let another : (i == j) ≡ false = ground arith in
              rw another (
                n.stays l (b i - 0)
                  (c.weakens l ws.state (b i) (b i - 0) (omega arith) (h.left i l r)))

      happen-Within :
          {count k : ℕ} {b : ℕ → ℕ} (x : Turn) (ws : Workers e u)
          → Within count (suc k) b ws
          → AreWithin count k (λ i. b i - turns i (x ∷ [])) (happen e u x ws)
      unfolding happen turns
      happen-Within {count} {k} {b} other ws h =
          let (inv, stays) = c.elapses k ws.state h.inv in
          record {
            inv = inv;
            left = λ i l q.
                stays l (b i - 0)
                  (c.weakens l ws.state (b i) (b i - 0) (omega arith) (h.left i l q));
            same = h.same;
          }
      happen-Within {count} {k} {b} (work j) ws h = by_place (get_elem? ws.locals j) refl
        where
          elsewhere :
              get_elem? ws.locals j ≡ none
              → (i : ℕ) {l : Local T G} → get_elem? ws.locals i ≡ some l
              → i ≢ j
          elsewhere q i r same = cc (ap (get_elem? ws.locals) same, q, r)

          by_place :
              (l : Option (Local T G))
              → get_elem? ws.locals j ≡ l
              → AreWithin count k (λ i. b i - turns i (work j ∷ [])) (happen e u (work j) ws)
          by_place none q =
              rw (q, happen)
                (record {
                  inv = c.idles k ws.state h.inv;
                  left = λ i l r.
                      let another : (i == j) ≡ false = ground (arith, elsewhere q i r) in
                      rw another
                        (c.weakens l ws.state (b i) (b i - 0) (omega arith) (h.left i l r));
                  same = h.same;
                })
          by_place (some l) q =
              rw (q, happen)
                (worked j ws h (advance e u l ws.state)
                  (c.advances k (b j) l ws.state h.inv (h.left j l q)))

      -- Under every schedule the workers go on without a panic, and each has as many turns less as it got.
      pub schedule-Within :
          {count : ℕ} (xs : List Turn) (b : ℕ → ℕ) (ws : Workers e u)
          → Within count (length xs) b ws
          → (end : Workers e u) × (schedule e u xs ws ≡ some end)
            × Within count 0 (λ i. b i - turns i xs) end
      unfolding schedule turns
      schedule-Within [] b ws h = (
        ws,
        refl,
        record {
          inv = h.inv;
          left = λ i l q. c.weakens l ws.state (b i) (b i - 0) (omega arith) (h.left i l q);
          same = h.same;
        },
      )
      schedule-Within {count} (x ∷ xs) b ws h =
          going (happen e u x ws) (happen-Within x ws h)
            (λ next. schedule-Within xs (λ i. b i - turns i (x ∷ [])) next)
        where
          going :
              (m : Option (Workers e u))
              → AreWithin count (length xs) (λ i. b i - turns i (x ∷ [])) m
              → ((next : Workers e u)
                  → Within count (length xs) (λ i. b i - turns i (x ∷ [])) next
                  → (end : Workers e u) × (schedule e u xs next ≡ some end)
                    × Within count 0 (λ i. b i - turns i (x ∷ []) - turns i xs) end)
              → (end : Workers e u) × (Code.behind e u (schedule e u xs) m ≡ some end)
                × Within count 0 (λ i. b i - turns i (x ∷ xs)) end
          going none t rest = elim t [ ]
          going (some next) t rest =
              let (end, q, r) = rest next t in
              (
                end,
                q,
                record {
                  inv = r.inv;
                  left = λ i l p.
                      c.weakens l end.state (b i - turns i (x ∷ []) - turns i xs)
                        (b i - turns i (x ∷ xs)) (omega (arith, turns-first i x xs)) (r.left i l p);
                  same = r.same;
                },
              )
