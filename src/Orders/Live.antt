-- ===== src/Orders/Live.antt =====
-- src/orders.rs, `is_live`, `active_for_worker` and the test of `take_expired`: which orders are in
-- effect.
use blitzpool_rental_proxy.Prelude.{
  Text, ◌≡◌, refl, inl, inr, true, false, ◌&&◌, not, Option, none, some, List, [], ◌∷◌, map, arith,
  if◌then◌else◌, text_eq, text_beq, text_beq_iff, Bool-cases,
}
use blitzpool_rental_proxy.Prelude.Int.{ℤ, pos, ◌≤ℤ◌}
use blitzpool_rental_proxy.Prelude.Float.{Float}
use blitzpool_rental_proxy.Orders.{Order, active, funding_exhausted, is_live, is_finished}
use blitzpool_rental_proxy.Orders.Row.{OrderRow, into_order, active_word, from_db}
use blitzpool_rental_proxy.Orders.Store.{OrderStore, select, find, is_current, active_for_worker}
use blitzpool_rental_proxy.Orders.Unique.{AllRows}

from_db-active : (s : Text) → s ≡ active_word → from_db s ≡ active
unfolding from_db text_beq
from_db-active s e = rw e

module _ {W : Type 0} ⦃f : Float W⦄ where
  -- An active order whose end is not negative is ended by the expiry task exactly when it is not
  -- live: no order is both routed and ended, and none is stuck in between.
  pub is_finished-eq-not-live :
      (now : ℤ) (o : Order W)
      → o.status ≡ active
      → pos 0 ≤ℤ o.until_ms
      → is_finished now o ≡ not (is_live o now)
  unfolding is_finished is_live
  is_finished-eq-not-live now o a h = ground arith

  -- What the answer for a worker says of the table.
  abbrev pub Answers : Text → ℤ → List (OrderRow W) → Option (Order W) → Type 0
  Answers worker now rs none =
      AllRows (λ r. r.worker ≡ worker → r.status ≡ active_word → is_live (into_order r) now ≡ false)
        rs
  Answers worker now rs (some o) = (o.worker ≡ worker) × (is_live o now ≡ true)

  current_live :
      (worker : Text) (now : ℤ) (r : OrderRow W)
      → is_current worker now r ≡ true
      → funding_exhausted (into_order r) ≡ false
      → ((into_order r).worker ≡ worker) × (is_live (into_order r) now ≡ true)
  unfolding into_order is_live
  current_live worker now r c x = ground (
    arith,
    text_beq_iff r.worker worker,
    text_beq_iff r.status active_word,
    from_db-active r.status,
  )

  not_current :
      (worker : Text) (now : ℤ) (r : OrderRow W)
      → (is_current worker now r && not (funding_exhausted (into_order r))) ≡ false
      → r.worker ≡ worker
      → r.status ≡ active_word
      → is_live (into_order r) now ≡ false
  unfolding into_order is_live
  not_current worker now r c w a =
      ground (arith, text_beq_iff r.worker worker, text_beq_iff r.status active_word)

  abbrev pub fetched : Text → ℤ → List (OrderRow W) → Option (Order W)
  fetched worker now rs =
      find (λ o. not (funding_exhausted o)) (map into_order (select (is_current worker now) rs))

  pub fetched-cons :
      (worker : Text) (now : ℤ) (r : OrderRow W) (rs : List (OrderRow W))
      → fetched worker now (r ∷ rs) ≡ (
          if is_current worker now r && not (funding_exhausted (into_order r))
          then some (into_order r)
          else fetched worker now rs)
  unfolding find select
  fetched-cons worker now r rs = elim (Bool-cases (is_current worker now r)) [
    | inl c ↦ rw c (ground arith)
    | inr c ↦ rw c
  ]

  Answers-skip :
      (worker : Text) (now : ℤ) (r : OrderRow W) (rs : List (OrderRow W)) (o : Option (Order W))
      → (is_current worker now r && not (funding_exhausted (into_order r))) ≡ false
      → Answers worker now rs o
      → Answers worker now (r ∷ rs) o
  Answers-skip worker now r rs none k a = (not_current worker now r k, a)
  Answers-skip worker now r rs (some o) k a = a

  fetched-Answers :
      (worker : Text) (now : ℤ) (rs : List (OrderRow W))
      → Answers worker now rs (fetched worker now rs)
  unfolding find select
  fetched-Answers worker now [] = tt
  fetched-Answers worker now (r ∷ rs) =
      elim (Bool-cases (is_current worker now r && not (funding_exhausted (into_order r)))) [
        | inl c ↦
            rw (fetched-cons worker now r rs, c)
              (current_live worker now r (ground arith) (ground arith))
        | inr c ↦
            rw (fetched-cons worker now r rs, c)
              (Answers-skip worker now r rs _ c (fetched-Answers worker now rs))
      ]

  -- When the read is answered, the order that a reconnecting miner resumes belongs to its worker and is
  -- live, and if there is none, no row of the worker that the table calls active is live. When the
  -- read fails there is none, whatever the rows.
  pub active_for_worker-Answers :
      (worker : Text) (now : ℤ) (s : OrderStore W)
      → Answers worker now s.orders (active_for_worker true worker now s)
        × (active_for_worker false worker now s ≡ none)
  unfolding active_for_worker
  active_for_worker-Answers worker now s = (fetched-Answers worker now s.orders, refl)
