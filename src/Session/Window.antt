-- ===== src/Session/Window.antt =====
-- src/session.rs, `HashrateWindow`: a rolling window of accepted-share difficulties. An `Instant`
-- and a `Duration` are numbers of nanoseconds; `now` is an argument.
pub mod Rolling
use mathlib.Core.List.{foldl}
use blitzpool_rental_proxy.Prelude.{
  ℕ, ◌+◌, ◌-◌, ◌/◌, ◌%◌, Bool, true, false, List, [], ◌∷◌, ◌++◌, ltb, if◌then◌else◌,
}
use blitzpool_rental_proxy.Prelude.Float.{Float, nought}

pub record HashrateWindow (W : Type 0) : Type 0 where
  pub window : ℕ
  -- oldest first
  pub samples : List (ℕ × W)

module _ {W : Type 0} where
  abbrev pub new : ℕ → HashrateWindow W
  new window = record { window = window; samples = [] }

  -- `while let Some(front)`: samples older than the window leave at the front, up to the first that
  -- is not. `duration_since` stops at 0.
  unfoldable pub prune : ℕ → ℕ → List (ℕ × W) → List (ℕ × W)
  prune window now [] = []
  prune window now ((t, d) ∷ samples) =
      let rest = prune window now samples in if ltb window (now - t) then rest else (t, d) ∷ samples

  unfoldable pub record_at : ℕ → W → HashrateWindow W → HashrateWindow W
  unfolding prune
  record_at now difficulty w = record w {
    samples = prune w.window now (w.samples ++ (now, difficulty) ∷ []);
  }

module _ {W : Type 0} ⦃f : Float W⦄ where
  -- Duration::as_secs_f64
  unfoldable pub as_secs_f64 : ℕ → W
  as_secs_f64 t =
      f.add (f.of_nat (t / 1_000_000_000))
        (f.div (f.of_nat (t % 1_000_000_000)) (f.of_nat 1_000_000_000))

  abbrev pub diff1_hashes : W
  diff1_hashes = f.of_nat 4_294_967_296

  abbrev pub min_rate_secs : W
  min_rate_secs = f.of_nat 60

  unfoldable pub sum_difficulty : List (ℕ × W) → W
  sum_difficulty samples = foldl (λ acc s. f.add acc s.1) nought samples

  -- The span from the oldest sample to now, within `[min_rate_secs, window]`.
  unfoldable pub rate_span : HashrateWindow W → ℕ → ℕ → W
  unfolding as_secs_f64
  rate_span w now oldest =
      f.fmax (f.fmin (as_secs_f64 (now - oldest)) (as_secs_f64 w.window)) min_rate_secs

  rate_over : HashrateWindow W → ℕ → List (ℕ × W) → W
  unfolding sum_difficulty rate_span
  rate_over w now [] = nought
  rate_over w now ((oldest, d) ∷ samples) =
      f.div (f.mul (sum_difficulty ((oldest, d) ∷ samples)) diff1_hashes) (rate_span w now oldest)

  unfoldable pub hashes_per_second_at : ℕ → HashrateWindow W → W
  unfolding rate_over
  hashes_per_second_at now w = rate_over w now w.samples
