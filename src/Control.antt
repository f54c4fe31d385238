-- ===== src/Control.antt =====
-- src/control.rs: the protocol-agnostic view of a live session.

use blitzpool_rental_proxy.Prelude.{Text, ℕ, Bool, false, ◌&&◌, Option, leb, nat_beq, if◌then◌else◌}
use blitzpool_rental_proxy.Prelude.Float.{Float}

abbrev pub accept_ratio_min_sample : ℕ
accept_ratio_min_sample = 50

-- Two protocols speak to the miners; a session is known by the address that its `Arc` points to.
pub data AnySession : Type 0 where
  sv1 : ℕ → AnySession
  sv2 : ℕ → AnySession

-- Arc::ptr_eq on the same variant.
unfoldable pub ptr_eq : AnySession → AnySession → Bool
ptr_eq (sv1 a) (sv1 b) = nat_beq a b
ptr_eq (sv2 a) (sv2 b) = nat_beq a b
ptr_eq (sv1 a) (sv2 b) = false
ptr_eq (sv2 a) (sv1 b) = false

module _ {W : Type 0} ⦃f : Float W⦄ where
  abbrev pub accept_ratio_threshold : W
  accept_ratio_threshold = f.decimal 75 2

  -- accepted / submitted, and 1.0 when nothing was submitted.
  unfoldable pub accept_ratio : ℕ → ℕ → W
  accept_ratio accepted submitted =
      if nat_beq submitted 0 then f.of_nat 1 else f.div (f.of_nat accepted) (f.of_nat submitted)

unfoldable pub accept_ratio_low : {W : Type 0} → Float W → ℕ → ℕ → Bool
unfolding accept_ratio
accept_ratio_low f accepted submitted =
    leb accept_ratio_min_sample submitted
    && f.lt (accept_ratio ⦃f = f⦄ accepted submitted) (accept_ratio_threshold ⦃f = f⦄)

pub data RoutingName : Type 0 where
  idle_name : RoutingName
  rented_name : RoutingName

pub data ProtocolName : Type 0 where
  sv1_name : ProtocolName
  sv2_name : ProtocolName

-- The snapshot that the control interface serves.
pub record SessionStatus (W : Type 0) : Type 0 where
  pub worker : Text
  pub routing : RoutingName
  pub order_id : Option Text
  pub upstream_url : Text
  pub hashrate_hs : W
  pub delivered_work : W
  pub accepted_shares : ℕ
  pub submitted_shares : ℕ
  pub accept_ratio_value : W
  pub accept_ratio_is_low : Bool
  pub protocol : ProtocolName
