-- ===== src/Prelude/Float.antt =====
-- `f64`: the operations that the source applies to one, as an interface. The development never
-- computes with a rounding rule; a theorem that needs a law of the arithmetic takes it as a
-- hypothesis.
use mathlib.Core.Bool.{Bool}
use Prim.Native.Nat.{ℕ}

pub record Float (W : Type 0) : Type 0 where
  -- `n as f64`, and a literal with no fraction
  pub of_nat : ℕ → W
  -- the literal `m / 10 ^ k`, as 0.75 is `decimal 75 2`
  pub decimal : ℕ → ℕ → W
  pub add : W → W → W
  pub sub : W → W → W
  pub mul : W → W → W
  pub div : W → W → W
  pub fmin : W → W → W
  pub fmax : W → W → W
  -- `a < b` and `a <= b`; `a > b` is `b < a`, with NaN too
  pub lt : W → W → Bool
  pub le : W → W → Bool

module _ {W : Type 0} ⦃f : Float W⦄ where
  abbrev pub nought : W
  nought = f.of_nat 0
