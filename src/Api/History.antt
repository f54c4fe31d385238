-- ===== src/Api/History.antt =====
-- src/api.rs, `get_seller_history`: what the chart of a rig is drawn from.
mod Bands
use blitzpool_rental_proxy.Prelude.{
  Text, ℕ, ◌*◌, Bool, true, false, Option, none, some, List, [], ◌∷◌, Result, ok, err,
  if◌then◌else◌, leb,
}
use blitzpool_rental_proxy.Prelude.Dict.{Dict}
use blitzpool_rental_proxy.Prelude.Int.{ℤ, pos, negsuc, ◌-ℤ◌, ltb_ℤ}
use blitzpool_rental_proxy.Prelude.Float.{Float}
use blitzpool_rental_proxy.Orders.{Order, OrderStatus, active, is_active}
use blitzpool_rental_proxy.Orders.Store.{OrderStore, list_for_worker}
use blitzpool_rental_proxy.Sellers.{Rig, get_rig}
use blitzpool_rental_proxy.Hashrate.{Row, since}
use blitzpool_rental_proxy.Api.Requests.{ApiError, not_found}

pub record Band : Type 0 where
  pub id : Text
  pub start_ms : ℤ
  pub end_ms : ℤ
  pub status : OrderStatus

pub record SellerHistory (W : Type 0) : Type 0 where
  pub worker : Text
  pub advertised_ths : W
  pub days : ℕ
  pub samples : List (Row W)
  pub rentals : List Band

-- Seven days unless the query says otherwise, and never outside 1 to 7.
unfoldable pub clamp_days : Option ℤ → ℕ
clamp_days none = 7
clamp_days (some (negsuc n)) = 1
clamp_days (some (pos n)) = if leb 7 n then 7 else if leb n 1 then 1 else n

module _ {W : Type 0} where
  -- now for a live rental, else its end, else its deadline, else its start
  unfoldable pub band_end : ℤ → Order W → ℤ
  band_end now o =
      if is_active o.status
      then now
      else if ltb_ℤ (pos 0) o.ended_ms
      then o.ended_ms
      else if ltb_ℤ (pos 0) o.until_ms
      then o.until_ms
      else o.created_ms

  unfoldable pub bands : ℤ → ℤ → List (Order W) → List Band
  unfolding band_end
  bands now since_ms [] = []
  bands now since_ms (o ∷ orders) =
      let rest = bands now since_ms orders in
      let end_ms = band_end now o in
      if ltb_ℤ end_ms since_ms
      then rest
      else (record { id = o.id; start_ms = o.created_ms; end_ms = end_ms; status = o.status })
        ∷ rest

-- Whether the reads of the rigs, the samples and the orders are answered.
pub record Reads : Type 0 where
  pub rigs : Bool
  pub samples : Bool
  pub orders : Bool

module _ {W : Type 0} ⦃f : Float W⦄ where
  unfoldable pub history_of :
      Reads → ℤ → Text → ℕ → Rig W → List (Row W) → OrderStore W → SellerHistory W
  unfolding bands since list_for_worker
  history_of reads now worker days rig rows orders =
      let since_ms = now -ℤ pos (days * 86_400_000) in
      record {
        worker = worker;
        advertised_ths = rig.advertised_ths;
        days = days;
        samples = since reads.samples worker since_ms rows;
        rentals = bands now since_ms (list_for_worker reads.orders worker orders);
      }

  -- The time, the rig, the days asked for, and the three tables.
  unfoldable pub get_seller_history :
      Reads
      → ℤ
      → Text
      → Option ℤ
      → Dict Text (Rig W)
      → List (Row W)
      → OrderStore W
      → Result ApiError (SellerHistory W)
  unfolding get_rig clamp_days history_of
  get_seller_history reads now worker days rigs rows orders =
      elim (get_rig reads.rigs worker rigs) [
        | none ↦ err not_found
        | some rig ↦ ok (history_of reads now worker (clamp_days days) rig rows orders)
      ]
