-- ===== src/Hashrate/History.antt =====
-- src/hashrate.rs: what the history of a rig holds.
use blitzpool_rental_proxy.Prelude.{
  Text, ◌≡◌, inl, inr, Bool, true, false, ◌&&◌, List, [], ◌∷◌, ◌==◌, text_eq, text_beq_iff, arith,
  Bool-cases,
}
use blitzpool_rental_proxy.Prelude.Int.{ℤ, ◌≤ℤ◌, leb_ℤ}
use blitzpool_rental_proxy.Orders.Store.{select}
use blitzpool_rental_proxy.Hashrate.{Row, insert_by_slot, sort_by_slot, since}

module _ {W : Type 0} where
  abbrev pub All : (Row W → Type 0) → List (Row W) → Type 0
  All P [] = Unit {0}
  All P (r ∷ rs) = P r × All P rs

  -- Oldest first.
  abbrev pub Ascending : List (Row W) → Type 0
  Ascending [] = Unit {0}
  Ascending (r ∷ rs) = All (λ q. r.slot_ms ≤ℤ q.slot_ms) rs × Ascending rs

  insert_by_slot-All :
      (P : Row W → Type 0) (r : Row W) (rs : List (Row W))
      → P r
      → All P rs
      → All P (insert_by_slot r rs)
  unfolding insert_by_slot
  insert_by_slot-All P r [] p a = (p, tt)
  insert_by_slot-All P r (q ∷ qs) p a = elim (Bool-cases (leb_ℤ r.slot_ms q.slot_ms)) [
    | inl e ↦ rw e (p, a)
    | inr e ↦ rw e (a.0, insert_by_slot-All P r qs p a.1)
  ]

  sort_by_slot-All : (P : Row W → Type 0) (rs : List (Row W)) → All P rs → All P (sort_by_slot rs)
  unfolding sort_by_slot
  sort_by_slot-All P [] a = tt
  sort_by_slot-All P (r ∷ rs) a =
      insert_by_slot-All P r (sort_by_slot rs) a.0 (sort_by_slot-All P rs a.1)

  All-later :
      (a b : ℤ) (rs : List (Row W))
      → a ≤ℤ b
      → All (λ q. b ≤ℤ q.slot_ms) rs
      → All (λ q. a ≤ℤ q.slot_ms) rs
  All-later a b [] h k = tt
  All-later a b (r ∷ rs) h k = (omega (arith, h, k.0), All-later a b rs h k.1)

  insert_by_slot-Ascending :
      (r : Row W) (rs : List (Row W)) → Ascending rs → Ascending (insert_by_slot r rs)
  unfolding insert_by_slot
  insert_by_slot-Ascending r [] a = (tt, tt)
  insert_by_slot-Ascending r (q ∷ qs) a = elim (Bool-cases (leb_ℤ r.slot_ms q.slot_ms)) [
    | inl e ↦
        rw e ((ground (arith, e), All-later r.slot_ms q.slot_ms qs (ground (arith, e)) a.0), a)
    | inr e ↦ rw e (
      insert_by_slot-All (λ x. q.slot_ms ≤ℤ x.slot_ms) r qs (ground (arith, e)) a.0,
      insert_by_slot-Ascending r qs a.1,
    )
  ]

  sort_by_slot-Ascending : (rs : List (Row W)) → Ascending (sort_by_slot rs)
  unfolding sort_by_slot
  sort_by_slot-Ascending [] = tt
  sort_by_slot-Ascending (r ∷ rs) =
      insert_by_slot-Ascending r (sort_by_slot rs) (sort_by_slot-Ascending rs)

  select-All :
      (P : Row W → Type 0) (p : Row W → Bool) (rs : List (Row W))
      → ((r : Row W) → p r ≡ true → P r)
      → All P (select p rs)
  unfolding select
  select-All P p [] h = tt
  select-All P p (r ∷ rs) h = elim (Bool-cases (p r)) [
    | inl e ↦ rw e (h r e, select-All P p rs h)
    | inr e ↦ rw e (select-All P p rs h)
  ]

  -- What the chart of a rig reads is that rig's, not before the start that was asked, and oldest first.
  since-Ascending :
      (up : Bool) (worker : Text) (since_ms : ℤ) (rows : List (Row W))
      → Ascending (since up worker since_ms rows)
        × All (λ r. (r.worker ≡ worker) × (since_ms ≤ℤ r.slot_ms)) (since up worker since_ms rows)
  unfolding since
  since-Ascending false worker since_ms rows = (tt, tt)
  since-Ascending true worker since_ms rows = (
    sort_by_slot-Ascending (select (λ r. (r.worker == worker) && leb_ℤ since_ms r.slot_ms) rows),
    sort_by_slot-All (λ r. (r.worker ≡ worker) × (since_ms ≤ℤ r.slot_ms))
        (select (λ r. (r.worker == worker) && leb_ℤ since_ms r.slot_ms) rows)
        (select-All (λ r. (r.worker ≡ worker) × (since_ms ≤ℤ r.slot_ms))
          (λ r. (r.worker == worker) && leb_ℤ since_ms r.slot_ms) rows
          (λ r h. ground (arith, text_beq_iff r.worker worker, h))),
  )
