-- ===== src/Orders.antt =====
-- src/orders.rs: rental orders, their state and what they cost. The store of the orders, the expiry
-- task and the proofs are the modules below.
pub mod Row
pub mod Store
pub mod Gone
pub mod Expiry
pub mod Live
pub mod Unique
pub mod Created
pub mod Accounting
pub mod Finished
pub mod Cancelled
use blitzpool_rental_proxy.Prelude.{
  Text, ℕ, Bool, true, false, not, ◌&&◌, ◌||◌, Option, if◌then◌else◌,
}
use blitzpool_rental_proxy.Prelude.Int.{ℤ, pos, eqb_ℤ, ltb_ℤ, leb_ℤ}
use blitzpool_rental_proxy.Prelude.Float.{Float, nought}
use blitzpool_rental_proxy.Session.{UpstreamTarget}

pub data OrderStatus : Type 0 where
  active : OrderStatus
  ended : OrderStatus
  cancelled : OrderStatus

pub record Order (W : Type 0) : Type 0 where
  pub id : Text
  pub worker : Text
  pub target : UpstreamTarget
  pub fallback : Option UpstreamTarget
  pub created_ms : ℤ
  -- 0 is an open end
  pub until_ms : ℤ
  pub status : OrderStatus
  -- 0 while the order is active
  pub ended_ms : ℤ
  pub delivered_work : W
  pub accepted_shares : ℕ
  pub submitted_shares : ℕ
  pub price_per_th_day : W
  -- 0 is no limit
  pub budget : W

abbrev pub is_active : OrderStatus → Bool
is_active active = true
is_active ended = false
is_active cancelled = false

module _ {W : Type 0} ⦃f : Float W⦄ where
  abbrev pub hashes_per_th_day : W
  hashes_per_th_day = f.mul (f.of_nat 1_000_000_000_000) (f.of_nat 86_400)

  abbrev pub diff1_hashes : W
  diff1_hashes = f.of_nat 4_294_967_296

  -- Delivered TH days at the agreed price.
  unfoldable pub cost : Order W → W
  cost o = f.mul (f.div (f.mul o.delivered_work diff1_hashes) hashes_per_th_day) o.price_per_th_day

  unfoldable pub budget_remaining : Order W → W
  budget_remaining o =
      if f.le o.budget nought then nought else f.fmax (f.sub o.budget (cost o)) nought

  unfoldable pub funding_exhausted : Order W → Bool
  funding_exhausted o = f.lt nought o.budget && f.le o.budget (cost o)

  -- Active, before its end, and with budget left.
  unfoldable pub is_live : Order W → ℤ → Bool
  is_live o now =
      is_active o.status
      && (eqb_ℤ o.until_ms (pos 0) || ltb_ℤ now o.until_ms)
      && not (funding_exhausted o)

  -- The test of `take_expired`.
  unfoldable pub is_finished : ℤ → Order W → Bool
  is_finished now o = (ltb_ℤ (pos 0) o.until_ms && leb_ℤ o.until_ms now) || funding_exhausted o
