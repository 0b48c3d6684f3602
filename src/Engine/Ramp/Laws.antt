-- ===== src/Engine/Ramp/Laws.antt =====
-- The limits of a ramp: their bounds, and the last of them.
use spangen.Base.{
  ℕ, zero, suc, ◌≡◌, refl, List, [], ◌∷◌, some, true, false, All, get_elem?, last_or,
  some-injective, subst, sym, Bool-cases, inl, inr, arith,
}
use spangen.Base.Int.{ℤ, pos, leb_ℤ, ◌≤ℤ◌, ◌<ℤ◌}
use spangen.Config.{GenConfig}
use spangen.Model.{Source}
use spangen.Engine.Ramp.{progress, raised, ramp_loop, ramp_limits}

-- What the loop relies on in the arithmetic of float64.
pub record IsOrdered (o : Source) : Type 0 where
  pub irreflexive : (x : o.Float) → o.less x x ≡ false
  pub hundredth :
      (t : o.Float) → o.less (o.lit 0 0) t ≡ true → o.less t (o.div t (o.lit 100 0)) ≡ false
  pub fraction :
      (t x : o.Float)
      → o.less (o.lit 0 0) t ≡ true
      → o.leq (o.lit 1 0) x ≡ false
      → o.less t (o.mul t x) ≡ false
  pub over :
      (ramp elapsed : ℤ)
      → pos 0 <ℤ ramp
      → ramp ≤ℤ elapsed
      → o.leq (o.lit 1 0) (progress o ramp elapsed) ≡ true

module _ (o : Source) (h : IsOrdered o) where
  open o use {Float, lit, div, mul, less, leq}

  -- From a hundredth of the target to the target.
  pub record IsWithin (target x : Float) : Type 0 where
    pub low : less x (div target (lit 100 0)) ≡ false
    pub high : less target x ≡ false

  raised-IsWithin :
      (target x : Float)
      → less (lit 0 0) target ≡ true
      → leq (lit 1 0) x ≡ false
      → IsWithin target (raised o target (mul target x))
  unfolding raised
  raised-IsWithin target x some_rate part =
      elim (Bool-cases (less (mul target x) (div target (lit 100 0)))) [
        | inl e ↦ rw e (record {
          low = h.irreflexive (div target (lit 100 0));
          high = h.hundredth target some_rate;
        })
        | inr e ↦ rw e (record { low = e; high = h.fraction target x some_rate part })
      ]

  ramp_loop-IsWithin :
      (target : Float) (ramp : ℤ) (ticks : List ℤ)
      → less (lit 0 0) target ≡ true
      → All (IsWithin target) (ramp_loop o target ramp ticks)
  unfolding ramp_loop
  ramp_loop-IsWithin target ramp [] some_rate = tt
  ramp_loop-IsWithin target ramp (elapsed ∷ ticks) some_rate =
      elim (Bool-cases (leq (lit 1 0) (progress o ramp elapsed))) [
        | inl e ↦
            rw e (record { low = h.hundredth target some_rate; high = h.irreflexive target }, tt)
        | inr e ↦ rw e (
          raised-IsWithin target (progress o ramp elapsed) some_rate e,
          ramp_loop-IsWithin target ramp ticks some_rate,
        )
      ]

  ramp_loop-last_or :
      (target from : Float) (ramp : ℤ) (ticks : List ℤ) (i : ℕ) {elapsed : ℤ}
      → pos 0 <ℤ ramp
      → get_elem? ticks i ≡ some elapsed
      → ramp ≤ℤ elapsed
      → last_or from (ramp_loop o target ramp ticks) ≡ target
  unfolding ramp_loop
  ramp_loop-last_or target from ramp [] i some_ramp at le = cc
  ramp_loop-last_or target from ramp (t ∷ ticks) zero {elapsed} some_ramp at le =
      rw (over_at (some-injective t elapsed at)) refl
    where
      over_at : t ≡ elapsed → leq (lit 1 0) (progress o ramp t) ≡ true
      over_at same =
          subst (λ x. leq (lit 1 0) (progress o ramp x) ≡ true) (sym same)
            (h.over ramp elapsed some_ramp le)
  ramp_loop-last_or target from ramp (t ∷ ticks) (suc i) some_ramp at le =
      elim (Bool-cases (leq (lit 1 0) (progress o ramp t))) [
        | inl e ↦ rw e refl
        | inr e ↦ rw e (
            ramp_loop-last_or target (raised o target (mul target (progress o ramp t))) ramp ticks i
              some_ramp at le)
      ]

  -- Over floats that are ordered as those of Go are: a ramp never sets a limit below a hundredth of the
  -- rate that is configured, nor above it, whenever the ticks come; and once a tick comes at the end of
  -- the ramp or later, the limit is that rate.
  pub ramp_limits-IsWithin :
      (gen : GenConfig Float) (ticks : List ℤ)
      → less (lit 0 0) gen.rate ≡ true
      → All (IsWithin gen.rate) (ramp_limits o gen ticks)
        × ((i : ℕ) (elapsed : ℤ) (from : Float)
            → pos 0 <ℤ gen.ramp
            → get_elem? ticks i ≡ some elapsed
            → gen.ramp ≤ℤ elapsed
            → last_or from (ramp_limits o gen ticks) ≡ gen.rate)
  unfolding ramp_limits
  ramp_limits-IsWithin gen ticks some_rate =
      rw some_rate (elim (Bool-cases (leb_ℤ gen.ramp (pos 0))) [
        | inl e ↦ rw e (tt, λ i elapsed from some_ramp. absurd (no_ramp e some_ramp))
        | inr e ↦ rw e (
          ramp_loop-IsWithin gen.rate gen.ramp ticks some_rate,
          λ i elapsed from. ramp_loop-last_or gen.rate from gen.ramp ticks i,
        )
      ])
    where
      no_ramp : leb_ℤ gen.ramp (pos 0) ≡ true → pos 0 <ℤ gen.ramp → ⊥
      no_ramp e some_ramp = ground arith
