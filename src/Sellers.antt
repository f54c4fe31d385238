-- ===== src/Sellers.antt =====
-- src/store.rs: the registered rigs. The table `rigs` is a map from a worker's name to its rig, since
-- `worker` is its primary key. A Bool says whether SQLite answers the statement.
use mathlib.Core.Option
use blitzpool_rental_proxy.Prelude.{
  Text, Bool, true, false, Option, none, some, [], if◌then◌else◌, text_eq, is_some,
}
use blitzpool_rental_proxy.Prelude.Dict.{Dict, lookup, insert, remove}
use blitzpool_rental_proxy.Prelude.Int.{ℤ}
use blitzpool_rental_proxy.Session.{UpstreamTarget}

pub record Rig (W : Type 0) : Type 0 where
  pub default_pool : UpstreamTarget
  pub advertised_ths : W
  pub price_per_th_day : W
  pub price_min_per_th_day : W
  pub price_max_per_th_day : W
  pub payout_address : Option Text
  pub rentable : Bool
  -- 0 is no cap
  pub max_rental_secs : ℤ

module _ {W : Type 0} where
  unfoldable pub get_rig : Bool → Text → Dict Text (Rig W) → Option (Rig W)
  get_rig up worker rigs = if up then lookup worker rigs else none

  unfoldable pub default_pool : Bool → Text → Dict Text (Rig W) → Option UpstreamTarget
  unfolding get_rig
  default_pool up worker rigs = Option.map (λ (r : Rig W). r.default_pool) (get_rig up worker rigs)

  -- INSERT … ON CONFLICT(worker) DO UPDATE; none is an error of the statement.
  unfoldable pub set_rig : Bool → Text → Rig W → Dict Text (Rig W) → Option (Dict Text (Rig W))
  set_rig up worker rig rigs = if up then some (insert worker rig rigs) else none

  -- UPDATE rigs SET rentable = ? WHERE worker = ?, and whether a row was there.
  unfoldable pub set_rentable :
      Bool → Text → Bool → Dict Text (Rig W) → Option (Bool × Dict Text (Rig W))
  set_rentable up worker flag rigs =
      if up
      then elim (lookup worker rigs) [
        | none ↦ some (false, rigs)
        | some rig ↦ some (true, insert worker (record rig { rentable = flag }) rigs)
      ]
      else none

  -- DELETE FROM rigs WHERE worker = ?, and whether a row was there.
  unfoldable pub remove_rig : Bool → Text → Dict Text (Rig W) → Option (Bool × Dict Text (Rig W))
  remove_rig up worker rigs =
      if up then some (is_some (lookup worker rigs), remove worker rigs) else none

  unfoldable pub list_rigs : Bool → Dict Text (Rig W) → Dict Text (Rig W)
  list_rigs up rigs = if up then rigs else []
