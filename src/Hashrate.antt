-- ===== src/Hashrate.antt =====
-- src/hashrate.rs: the delivered hashrate of each rig, one sample to a slot of ten minutes, kept for
-- seven days. A Bool says whether SQLite answers the statement.
pub mod History
use blitzpool_rental_proxy.Prelude.{
  Text, ℕ, ◌*◌, ◌/◌, Bool, true, false, ◌&&◌, not, Option, none, some, List, [], ◌∷◌, map,
  if◌then◌else◌, ◌==◌, text_eq,
}
use blitzpool_rental_proxy.Prelude.Int.{ℤ, pos, ◌-ℤ◌, eqb_ℤ, ltb_ℤ, leb_ℤ}
use blitzpool_rental_proxy.Prelude.Float.{Float, nought}
use blitzpool_rental_proxy.Prelude.Dict.{Dict}
use blitzpool_rental_proxy.Control.{AnySession, SessionStatus}
use blitzpool_rental_proxy.Registry.{Registry, aggregated_status}
use blitzpool_rental_proxy.Orders.Store.{select}
use blitzpool_rental_proxy.Sellers.{Rig, list_rigs}

abbrev pub slot_length_ms : ℕ
slot_length_ms = 600_000

abbrev pub retention_ms : ℕ
retention_ms = 7 * 24 * 60 * 60 * 1000

-- A row of `rig_hashrate_samples`, whose key is (worker, slot_ms).
pub record Row (W : Type 0) : Type 0 where
  pub worker : Text
  pub slot_ms : ℤ
  pub hashrate_ths : W
  pub online : Bool

module _ {W : Type 0} where
  abbrev pub same_key : Row W → Row W → Bool
  same_key a b = (a.worker == b.worker) && eqb_ℤ a.slot_ms b.slot_ms

  -- INSERT … ON CONFLICT(worker, slot_ms) DO UPDATE
  unfoldable pub upsert : Row W → List (Row W) → List (Row W)
  upsert new [] = new ∷ []
  upsert new (r ∷ rs) = if same_key r new then new ∷ rs else r ∷ upsert new rs

  unfoldable pub record_sample : Bool → Row W → List (Row W) → List (Row W)
  unfolding upsert
  record_sample up new rows = if up then upsert new rows else rows

  -- ORDER BY slot_ms ASC
  unfoldable pub insert_by_slot : Row W → List (Row W) → List (Row W)
  insert_by_slot r [] = r ∷ []
  insert_by_slot r (q ∷ qs) =
      if leb_ℤ r.slot_ms q.slot_ms then r ∷ q ∷ qs else q ∷ insert_by_slot r qs

  unfoldable pub sort_by_slot : List (Row W) → List (Row W)
  unfolding insert_by_slot
  sort_by_slot [] = []
  sort_by_slot (r ∷ rs) = insert_by_slot r (sort_by_slot rs)

  unfoldable pub since : Bool → Text → ℤ → List (Row W) → List (Row W)
  unfolding sort_by_slot select
  since up worker since_ms rows =
      if up
      then sort_by_slot (select (λ r. (r.worker == worker) && leb_ℤ since_ms r.slot_ms) rows)
      else []

  unfoldable pub prune_samples : Bool → ℤ → List (Row W) → List (Row W)
  unfolding select
  prune_samples up older_than_ms rows =
      if up then select (λ r. not (ltb_ℤ r.slot_ms older_than_ms)) rows else rows

module _ {W : Type 0} ⦃f : Float W⦄ where
  abbrev pub hs_per_ths : W
  hs_per_ths = f.of_nat 1_000_000_000_000

  -- A rig with no session, or with 0 H/s, counts as offline.
  unfoldable pub reading : Option (SessionStatus W) → W × Bool
  reading none = (nought, false)
  reading (some st) =
      if f.lt nought st.hashrate_hs
      then (f.div st.hashrate_hs hs_per_ths, true)
      else (nought, false)

  unfoldable pub sample_all :
      (Text → Bool)
      → (AnySession → SessionStatus W)
      → Registry
      → ℤ
      → Dict Text (Rig W)
      → List (Row W)
      → List (Row W)
  unfolding record_sample reading
  sample_all up status registry slot_ms [] rows = rows
  sample_all up status registry slot_ms ((worker, rig) ∷ rigs) rows =
      let (ths, online) = reading (aggregated_status status worker registry) in
      sample_all up status registry slot_ms rigs (
        record_sample (up worker)
          (record { worker = worker; slot_ms = slot_ms; hashrate_ths = ths; online = online }) rows)

  -- One round of `spawn_sampler`; `now` is after 1970.
  unfoldable pub sampler_round :
      Bool
      → (Text → Bool)
      → Bool
      → ℕ
      → (AnySession → SessionStatus W)
      → Registry
      → Dict Text (Rig W)
      → List (Row W)
      → List (Row W)
  unfolding sample_all prune_samples
  sampler_round rigs_up up prune_up now status registry rigs rows =
      prune_samples prune_up (pos now -ℤ pos retention_ms) (
        sample_all up status registry (pos (now / slot_length_ms * slot_length_ms))
          (list_rigs rigs_up rigs) rows)
