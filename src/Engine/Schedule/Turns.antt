-- ===== src/Engine/Schedule/Turns.antt =====
-- The turns that a worker takes behind the end of the run context, and each step's part in them.
use spangen.Base.{
  ℕ, zero, suc, ◌+◌, ◌-◌, ◌≤◌, ◌≡◌, refl, sym, ap, ◌≢◌, ◌⊎◌, inl, inr, List, [], ◌∷◌, ◌++◌,
  get_elem?, set, Option, none, some, some-injective, Bool, true, false, Bool-cases, ◌==◌, leb,
  if◌then◌else◌, arith,
}
use spangen.Engine.{observe_duration, spans_generated, add_u64}
use spangen.Engine.Send.{State, note, log_period}
use spangen.Engine.Schedule.{
  Environment, Local, looping, generated, reached, counted, waited, trying, accepting, refused,
  dropping, returned, Setup, Turn, work, other, behind_count, pace, try_again, advance, Workers,
  happen, schedule,
}
use spangen.Engine.Schedule as Code
use spangen.Engine.Schedule.Follows.{IsContext}

-- What a changed list holds at an index.
pub set-cases :
    {A : Type 0} (xs : List A) (j : ℕ) (v : A) (i : ℕ) {l : A}
    → get_elem? (set xs j v) i ≡ some l
    → ((i ≡ j) × (l ≡ v)) ⊎ ((i ≢ j) × (get_elem? xs i ≡ some l))
set-cases [] j v i h = cc
set-cases (x ∷ xs) zero v zero {l} h = inl (refl, sym (some-injective v l h))
set-cases (x ∷ xs) zero v (suc i) h = inr (omega arith, h)
set-cases (x ∷ xs) (suc j) v zero h = inr (omega arith, h)
set-cases (x ∷ xs) (suc j) v (suc i) h = elim (set-cases xs j v i h) [
  | inl q ↦ inl (ap suc q.0, q.1)
  | inr q ↦ inr (omega (arith, q.0), q.1)
]

-- How many turns worker i gets.
unfoldable pub turns : ℕ → List Turn → ℕ
turns i [] = 0
turns i (work j ∷ xs) = if i == j then suc (turns i xs) else turns i xs
turns i (other ∷ xs) = turns i xs

pub turns-first :
    (i : ℕ) (x : Turn) (xs : List Turn) → turns i (x ∷ xs) ≡ turns i (x ∷ []) + turns i xs
unfolding turns
turns-first i (work j) xs = by_index (i == j)
  where
    by_index :
        (b : Bool)
        → (if b then suc (turns i xs) else turns i xs) ≡ (if b then suc 0 else 0) + turns i xs
    by_index true = omega arith
    by_index false = omega arith
turns-first i other xs = omega arith

module _ {T G : Type 0} where
  -- How many turns a worker takes at most until it returns, once the run context is done.
  abbrev pub turns_left : Local T G → ℕ
  turns_left (looping g) = 1
  turns_left (generated g td n) = 4
  turns_left (reached g td n) = 3
  turns_left (counted g td n) = 2
  turns_left (waited g td n) = 1
  turns_left (trying g td n k) = 4
  turns_left (accepting g n) = 2
  turns_left (refused g td n k) = 3
  turns_left (dropping g n) = 2
  turns_left returned = 0

  pub turns_left-le : (l : Local T G) → turns_left l ≤ 4
  turns_left-le (looping g) = omega arith
  turns_left-le (generated g td n) = omega arith
  turns_left-le (reached g td n) = omega arith
  turns_left-le (counted g td n) = omega arith
  turns_left-le (waited g td n) = omega arith
  turns_left-le (trying g td n k) = omega arith
  turns_left-le (accepting g n) = omega arith
  turns_left-le (refused g td n k) = omega arith
  turns_left-le (dropping g n) = omega arith
  turns_left-le returned = omega arith

  pub none_left : (l : Local T G) → turns_left l ≤ 0 → l ≡ returned
  none_left (looping g) h = ground arith
  none_left (generated g td n) h = ground arith
  none_left (reached g td n) h = ground arith
  none_left (counted g td n) h = ground arith
  none_left (waited g td n) h = ground arith
  none_left (trying g td n k) h = ground arith
  none_left (accepting g n) h = ground arith
  none_left (refused g td n k) h = ground arith
  none_left (dropping g n) h = ground arith
  none_left returned h = refl

module _ {T G : Type 0} (e : Environment T) (u : Setup T G) where
  open e use {outside}

  -- A step behind the end: no panic, with so many turns left.
  pub record Nearer (l m : Local T G) (t : State outside) : Type 0 where
    pub done : outside.cancelled t.world ≡ true
    pub left : turns_left m ≤ turns_left l - 1

  abbrev pub Ends : Local T G → Option (Local T G × State outside) → Type 0
  Ends l none = ⊥
  Ends l (some (m, t)) = Nearer l m t

  module _ (c : IsContext e) (period : log_period outside u.batch ≢ 0) (t : State outside)
      (done : outside.cancelled t.world ≡ true) where
    behind_count-left :
        (g : G) (td : T) (n total : ℕ) → turns_left (behind_count e u g td n total) ≤ 3
    unfolding behind_count
    behind_count-left g td n total = elim (Bool-cases (u.max == 0)) [
      | inl q ↦ rw q (omega arith)
      | inr q ↦ rw q (by_limit (leb u.max total))
    ]
      where
        by_limit : (b : Bool) → turns_left (if b then reached g td n else counted g td n) ≤ 3
        by_limit true = omega arith
        by_limit false = omega arith

    pace-Ends :
        (g : G) (td : T) (n : ℕ)
        → Ends (counted g td n) (some (pace e u g td n (note outside (spans_generated n) t)))
    unfolding pace
    pace-Ends g td n = by_limit u.limited
      where
        answered :
            (m : Bool × outside.World)
            → outside.cancelled m.1 ≡ true
            → Ends
                (counted g td n)
                (some (Code.after_wait e u g td n (note outside (spans_generated n) t) m))
        answered (true, w) q = record { done = q; left = omega arith }
        answered (false, w) q = record { done = q; left = omega arith }

        by_limit :
            (b : Bool)
            → Ends
                (counted g td n)
                (some (Code.pace_by e u b g td n (note outside (spans_generated n) t)))
        by_limit true = answered (e.wait_n n t.world) (c.waits n t.world done)
        by_limit false = record { done = done; left = omega arith }

    trying-Ends :
        (g : G) (td : T) (n k : ℕ) → Ends (trying g td n k) (advance e u (trying g td n k) t)
    unfolding advance
    trying-Ends g td n k = sent (outside.deliver_to_sink td t.world) (c.sends td t.world done)
      where
        sent :
            (m : Bool × outside.World)
            → outside.cancelled m.1 ≡ true
            → Ends (trying g td n k) (
                some (
                  Code.answered e u g td n k
                    (m.0, record t { world = m.1; calls = t.calls ++ observe_duration ∷ [] })))
        sent (true, w) q = record { done = q; left = omega arith }
        sent (false, w) q = record { done = q; left = omega arith }

    pub advance-Ends : (l : Local T G) → Ends l (advance e u l t)
    unfolding advance try_again
    advance-Ends (looping g) = rw (done, advance) (record { done = done; left = omega arith })
    advance-Ends (generated g td n) = record {
      done = done;
      left = omega (arith, behind_count-left g td n (add_u64 t.counters.generated n));
    }
    advance-Ends (reached g td n) = record { done = c.cancels t.world; left = omega arith }
    advance-Ends (counted g td n) = pace-Ends g td n
    advance-Ends (waited g td n) = rw (done, advance) (record { done = done; left = omega arith })
    advance-Ends (trying g td n k) = trying-Ends g td n k
    advance-Ends (accepting g n) = record { done = done; left = omega arith }
    advance-Ends (refused g td n k) =
        rw (done, advance, try_again) (record { done = done; left = omega arith })
    advance-Ends (dropping g n) =
        let no_panic : (log_period outside u.batch == 0) ≡ false = ground arith in
        rw (no_panic, advance) (record { done = done; left = omega arith })
    advance-Ends returned = record { done = done; left = omega arith }
