-- ===== src/Engine/Ramp.antt =====
-- engine.go: `ramp`. A tick comes with the time since the start; the list of ticks ends with the run.
pub mod Laws
use spangen.Base.{
  ℕ, ◌<◌, ◌≤◌, ◌≡◌, refl, List, [], ◌∷◌, Option, none, some, Bool, true, false, if◌then◌else◌,
}
use spangen.Base.Int.{ℤ, pos, ltb_ℤ, leb_ℤ, ◌≤ℤ◌}
use spangen.Config.{GenConfig}
use spangen.Model.{Source}

module _ (o : Source) where
  open o use {Float, lit, mul, div, less, leq, seconds}

  -- The part of the ramp that is over.
  abbrev pub progress : ℤ → ℤ → Float
  progress ramp elapsed = div (seconds elapsed) (seconds ramp)

  -- At least a hundredth of the target.
  unfoldable pub raised : Float → Float → Float
  raised target cur = if less cur (div target (lit 100 0)) then div target (lit 100 0) else cur

  -- The limits that the loop sets, each also on the gauge TargetRate.
  unfoldable pub ramp_loop : Float → ℤ → List ℤ → List Float
  unfolding raised
  ramp_loop target ramp [] = []
  ramp_loop target ramp (elapsed ∷ ticks) =
      if leq (lit 1 0) (progress ramp elapsed)
      then target ∷ []
      else raised target (mul target (progress ramp elapsed)) ∷ ramp_loop target ramp ticks

  -- The limits that `ramp` sets on the limiter.
  unfoldable pub ramp_limits : GenConfig Float → List ℤ → List Float
  unfolding ramp_loop
  ramp_limits gen ticks =
      if less (lit 0 0) gen.rate
      then (if leb_ℤ gen.ramp (pos 0) then [] else ramp_loop gen.rate gen.ramp ticks)
      else []
