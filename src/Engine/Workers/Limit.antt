-- ===== src/Engine/Workers/Limit.antt =====
-- The span limit: what is sent stays below it.
use spangen.Base.{
  ℕ, ◌+◌, ◌≤◌, ◌<◌, ◌≡◌, refl, sym, ap, ◌∙◌, subst, List, [], ◌∷◌, Bool, true, false, arith, sum_of,
  sum_of-middle, sum_of-replicate,
}
use spangen.Base.Word.{u64_mod}
use spangen.Engine.{deliver}
use spangen.Engine.Workers.{
  Shared, Pc, top, filled, cancelling, counted, waited, sending, stopped, count_spans, discard,
  finish, Move, leave, fill, count_unlimited, count_below, count_reached, cancel_run, unpaced,
  wait_done, wait_failed, drop, begin, end, System, Step, work, outside, Reach, start, later,
}
use spangen.Engine.Workers.Invariant.{held, Balanced, in_hand, Step-total-le, Reach-Balanced}

-- The spans of batches that may still be sent while the run context is not done.
abbrev pub passed : Pc → ℕ
passed top = 0
passed (filled n) = 0
passed (cancelling n) = 0
passed (counted n) = n
passed (waited n) = n
passed (sending n) = n
passed stopped = 0

abbrev pub in_flight : Pc → ℕ
in_flight top = 0
in_flight (filled n) = 0
in_flight (cancelling n) = 0
in_flight (counted n) = 0
in_flight (waited n) = 0
in_flight (sending n) = n
in_flight stopped = 0

passed-le-held : (p : Pc) → passed p ≤ held p
passed-le-held p = ground arith

in_flight-le-passed : (p : Pc) → in_flight p ≤ passed p
in_flight-le-passed p = ground arith

-- The limit, with p spans that passed it and f spans in flight.
pub record Under (max : ℕ) (s : Shared) (p f : ℕ) : Type 0 where
  pub running : s.cancelled ≡ false → s.sent + s.errors + p < max
  pub always : s.sent + s.errors + f < max

sum_of_mono : (w x : Pc → ℕ) → ((p : Pc) → w p ≤ x p) → (ps : List Pc) → sum_of w ps ≤ sum_of x ps
unfolding sum_of
sum_of_mono w x le [] = omega arith
sum_of_mono w x le (p ∷ ps) = omega (arith, le p, sum_of_mono w x le ps)

-- The sum over the workers but the one between.
abbrev rest : (Pc → ℕ) → List Pc → List Pc → ℕ
rest w before after = sum_of w before + sum_of w after

Under-eq : {max : ℕ} {s : Shared} {p q f g : ℕ} → p ≡ q → f ≡ g → Under max s p f → Under max s q g
Under-eq e d v = ground arith

module _ {max : ℕ} {limited : Bool} where
  -- A move of one worker; h, p and f are the sums of the others.
  Move-Under :
      {s : Shared} {a b : Pc} {u : Shared} (h p f : ℕ)
      → Move max limited s a u b
      → u.total < u64_mod
      → f ≤ p
      → p ≤ h
      → Balanced s (held a + h)
      → Under max s (passed a + p) (in_flight a + f)
      → Under max u (passed b + p) (in_flight b + f)
  unfolding count_spans discard finish deliver
  Move-Under h p f (leave c) fits l k bal v = v
  Move-Under h p f (fill n c) fits l k bal v = v
  Move-Under h p f (count_unlimited m) fits l k bal v = ground arith
  Move-Under h p f (count_below m b) fits l k bal v = grind arith
  Move-Under h p f (count_reached m b) fits l k bal v = grind arith
  Move-Under h p f cancel_run fits l k bal v = ground arith
  Move-Under h p f (unpaced e) fits l k bal v = v
  Move-Under h p f (wait_done e) fits l k bal v = v
  Move-Under h p f (wait_failed e) fits l k bal v = ground arith
  Move-Under h p f (drop c) fits l k bal v = ground arith
  Move-Under h p f (begin c) fits l k bal v = ground arith
  Move-Under h p f (end true) fits l k bal v = ground arith
  Move-Under h p f (end false) fits l k bal v = ground arith

  Step-Under :
      {s t : System}
      → Step max limited s t
      → t.shared.total < u64_mod
      → Balanced s.shared (in_hand s)
      → Under max s.shared (sum_of passed s.workers) (sum_of in_flight s.workers)
      → Under max t.shared (sum_of passed t.workers) (sum_of in_flight t.workers)
  Step-Under {s} (work before after {p} {q} {u} eq m e) fits bal v =
      let sum = λ (w : Pc → ℕ). ap (sum_of w) eq ∙ sum_of-middle w before after p in
      rw e (
        Under-eq (sym (sum_of-middle passed before after q))
          (sym (sum_of-middle in_flight before after q))
          (Move-Under (rest held before after) (rest passed before after)
            (rest in_flight before after) m (rw e at fits)
            (omega (
              arith,
              sum_of_mono in_flight passed in_flight-le-passed before,
              sum_of_mono in_flight passed in_flight-le-passed after,
            ))
            (omega (
              arith,
              sum_of_mono passed held passed-le-held before,
              sum_of_mono passed held passed-le-held after,
            ))
            (subst (Balanced s.shared) (sum held) bal) (Under-eq (sum passed) (sum in_flight) v)))
  Step-Under (outside e) fits bal v = rw e (record { running = λ c. cc; always = v.always })

  Reach-Under :
      {workers : ℕ} {s : System}
      → 0 < max
      → Reach max limited workers s
      → s.shared.total < u64_mod
      → Under max s.shared (sum_of passed s.workers) (sum_of in_flight s.workers)
  Reach-Under {workers} pos start fits =
      rw (sum_of-replicate passed workers top refl, sum_of-replicate in_flight workers top refl)
        (record { running = λ _. pos; always = pos })
  Reach-Under pos (later r st) fits =
      let below : _ < u64_mod = omega (arith, Step-total-le st) in
      Step-Under st fits (Reach-Balanced r below) (Reach-Under pos r below)

  pub sent-lt-limit :
      {workers : ℕ} {s : System}
      → 0 < max
      → Reach max limited workers s
      → s.shared.total < u64_mod
      → s.shared.sent + s.shared.errors + sum_of in_flight s.workers < max
  sent-lt-limit pos r fits = (Reach-Under pos r fits).always
