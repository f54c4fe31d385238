-- ===== src/Translate/Difficulty.antt =====
-- src/proto/translate.rs: the share threshold of a difficulty, in exact whole numbers.
use native.Mathlib.Nat.{mul-div-mul_right}
use blitzpool_rental_proxy.Prelude.{◌≡◌, refl, ap, ◌∙◌, ℕ, ◌*◌, ◌/◌, false, true, some, arith}
use blitzpool_rental_proxy.Prelude.Float.{Float, nought}
use blitzpool_rental_proxy.Translate.{Threshold, denom_of, threshold_of, target_from_difficulty}

module _ {W : Type 0} ⦃f : Float W⦄ (t : Threshold W) where
  -- The documented behaviour of `f64` at a whole number k of at least 1: it is finite and above 0, its product
  -- with 2^16 is exact, and so are the rounding and the cast of that product.
  pub record WholeAt (k : ℕ) : Type 0 where
    pub finite : t.is_finite (f.of_nat k) ≡ true
    pub above_zero : f.le (f.of_nat k) nought ≡ false
    pub product : f.mul (f.of_nat k) (f.of_nat 65_536) ≡ f.of_nat (k * 65_536)
    pub rounding : t.rounded (f.of_nat (k * 65_536)) ≡ f.of_nat (k * 65_536)
    pub not_below_one : f.lt (f.of_nat (k * 65_536)) (f.of_nat 1) ≡ false
    pub cast : t.as_u128 (f.of_nat (k * 65_536)) ≡ k * 65_536

  whole_threshold : (k : ℕ) → WholeAt k → threshold_of t (f.of_nat k) ≡ some (t.diff1 / k)
  unfolding threshold_of
  whole_threshold k w =
      let scaled : denom_of t (f.of_nat k) ≡ f.of_nat (k * 65_536) =
        ap t.rounded w.product ∙ w.rounding in
      rw (w.finite, w.above_zero, scaled, w.not_below_one, w.cast)
        (ap some (mul-div-mul_right t.diff1 k (omega arith)))

  -- Where `f64` is exact at a whole difficulty k above 0 and at k * 2^16, the threshold of k is that of
  -- difficulty 1 divided by k, rounded down, and the target is its bytes.
  pub threshold_of-whole :
      (k : ℕ)
      → WholeAt k
      → (threshold_of t (f.of_nat k) ≡ some (t.diff1 / k))
        × (target_from_difficulty t (f.of_nat k) ≡ t.to_little_endian (t.diff1 / k))
  unfolding target_from_difficulty
  threshold_of-whole k w =
      (whole_threshold k w, rw (target_from_difficulty, whole_threshold k w) refl)
