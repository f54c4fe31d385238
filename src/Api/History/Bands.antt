-- ===== src/Api/History/Bands.antt =====
-- src/api.rs, `get_seller_history`: the rentals and the days that a chart shows.
use blitzpool_rental_proxy.Prelude.{
  ◌≤◌, Bool-cases, inl, inr, Option, none, some, List, [], ◌∷◌, arith,
}
use blitzpool_rental_proxy.Prelude.Int.{ℤ, pos, negsuc, ltb_ℤ, ◌≤ℤ◌}
use blitzpool_rental_proxy.Orders.{Order}
use blitzpool_rental_proxy.Api.History.{Band, band_end, bands, clamp_days}

clamp_days-bounds : (days : Option ℤ) → (1 ≤ clamp_days days) × (clamp_days days ≤ 7)
unfolding clamp_days
clamp_days-bounds none = omega arith
clamp_days-bounds (some (negsuc n)) = omega arith
clamp_days-bounds (some (pos n)) = ground arith

-- No band ends before the window.
abbrev Within : ℤ → List Band → Type 0
Within since_ms [] = Unit {0}
Within since_ms (b ∷ bs) = (since_ms ≤ℤ b.end_ms) × Within since_ms bs

module _ {W : Type 0} (now since_ms : ℤ) where
  bands-Within : (orders : List (Order W)) → Within since_ms (bands now since_ms orders)
  unfolding bands
  bands-Within [] = tt
  bands-Within (o ∷ orders) = elim (Bool-cases (ltb_ℤ (band_end now o) since_ms)) [
    | inl early ↦ rw early (bands-Within orders)
    | inr late ↦ rw late (ground (arith, late), bands-Within orders)
  ]
