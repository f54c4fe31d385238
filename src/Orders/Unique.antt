-- ===== src/Orders/Unique.antt =====
-- src/orders.rs and migrations/0004_orders_one_active_per_worker.sql: every operation of the store
-- keeps the ids distinct and leaves a worker at most one active order.
use blitzpool_rental_proxy.Prelude.{
  Text, ℕ, ◌≡◌, refl, ◌≢◌, Bool, true, false, ◌&&◌, Option, List, [], ◌∷◌, ◌++◌, map, arith,
  if◌then◌else◌, ◌==◌, text_eq, text_beq, text_beq_iff, Bool-cases, inl, inr,
}
use blitzpool_rental_proxy.Prelude.Dict.{Dict}
use blitzpool_rental_proxy.Prelude.Int.{ℤ}
use blitzpool_rental_proxy.Prelude.Float.{Float}
use blitzpool_rental_proxy.Session.{UpstreamTarget}
use blitzpool_rental_proxy.Orders.{Order, is_finished}
use blitzpool_rental_proxy.Orders.Row.{
  OrderRow, into_order, new_row, active_word, ended_word, cancelled_word,
}
use blitzpool_rental_proxy.Orders.Store.{
  OrderStore, WorkDelta, is_active_row, clashes, violates, set_status, select, order_id, create,
  add_work, add_submitted, credit, add_delta, flush_all, flush, cancel, end_all, take_expired,
}

module _ {W : Type 0} where
  abbrev pub AllRows {κ} : (OrderRow W → Type κ) → List (OrderRow W) → Type κ
  AllRows P [] = Unit
  AllRows P (r ∷ rs) = P r × AllRows P rs

  -- Two rows have two ids, and two workers if both are active.
  abbrev pub Apart : OrderRow W → OrderRow W → Type 0
  Apart r q =
      (r.id ≢ q.id) × (is_active_row r ≡ true → is_active_row q ≡ true → r.worker ≢ q.worker)

  abbrev pub Distinct : List (OrderRow W) → Type 0
  Distinct [] = Unit
  Distinct (r ∷ rs) = AllRows (Apart r) rs × Distinct rs

  -- A change of a row that keeps id and worker, and activates nothing.
  pub record Tame (g : OrderRow W → OrderRow W) : Type 0 where
    pub same_id : (r : OrderRow W) → (g r).id ≡ r.id
    pub same_worker : (r : OrderRow W) → (g r).worker ≡ r.worker
    pub no_revival : (r : OrderRow W) → is_active_row (g r) ≡ true → is_active_row r ≡ true

  clashes-Apart : (new r : OrderRow W) → clashes new r ≡ false → Apart r new
  unfolding clashes
  clashes-Apart new r h = (
    λ e. ground (arith, text_beq_iff r.id new.id),
    λ a b e. ground (arith, text_beq_iff r.worker new.worker),
  )

  Distinct-append :
      (new : OrderRow W) (rs : List (OrderRow W))
      → violates new rs ≡ false
      → Distinct rs
      → Distinct (rs ++ new ∷ [])
  unfolding violates
  Distinct-append new [] h d = (tt, tt)
  Distinct-append new (r ∷ rs) h d =
      (behind r rs (ground arith) d.0, Distinct-append new rs (ground arith) d.1)
    where
      behind :
          (r : OrderRow W) (rs : List (OrderRow W))
          → clashes new r ≡ false
          → AllRows (Apart r) rs
          → AllRows (Apart r) (rs ++ new ∷ [])
      behind r [] k a = (clashes-Apart new r k, tt)
      behind r (q ∷ qs) k a = (a.0, behind r qs k a.1)

  module _ (g : OrderRow W → OrderRow W) (tame : Tame g) where
    AllRows-map :
        (r : OrderRow W) (rs : List (OrderRow W))
        → AllRows (Apart r) rs
        → AllRows (Apart (g r)) (map g rs)
    AllRows-map r [] h = tt
    AllRows-map r (q ∷ qs) h = (
      (
        λ e. h.0.0 (cc (tame.same_id r, tame.same_id q)),
        λ a b e.
            h.0.1 (tame.no_revival r a) (tame.no_revival q b)
              (cc (tame.same_worker r, tame.same_worker q)),
      ),
      AllRows-map r qs h.1,
    )

    Distinct-map : (rs : List (OrderRow W)) → Distinct rs → Distinct (map g rs)
    Distinct-map [] d = tt
    Distinct-map (r ∷ rs) d = (AllRows-map r rs d.0, Distinct-map rs d.1)

  set_status-Distinct :
      (word : Text) (now : ℤ) (id : Text) (rs : List (OrderRow W))
      → (word == active_word) ≡ false
      → Distinct rs
      → Distinct (set_status word now id rs)
  unfolding set_status
  set_status-Distinct word now id rs h =
      Distinct-map (λ r. if r.id == id then record r { status = word; ended_ms = now } else r)
        (record {
          same_id = λ r. ground arith;
          same_worker = λ r. ground arith;
          no_revival = λ r a. ground arith;
        })
        rs

  credit-Tame :
      ⦃f : Float W⦄ (id : Text) (d : WorkDelta W) → Tame (λ r. if r.id == id then credit d r else r)
  unfolding credit
  credit-Tame id d = record {
    same_id = λ r. ground arith;
    same_worker = λ r. ground arith;
    no_revival = λ r a. ground arith;
  }

ended-ne-active : (ended_word == active_word) ≡ false
unfolding text_beq
ended-ne-active = refl

cancelled-ne-active : (cancelled_word == active_word) ≡ false
unfolding text_beq
cancelled-ne-active = refl

module _ {W : Type 0} ⦃f : Float W⦄ where
  flush_all-Distinct :
      (answers : Text → Bool) (drained : Dict Text (WorkDelta W)) (rs : List (OrderRow W))
      → Distinct rs
      → Distinct (flush_all answers drained rs)
  unfolding flush_all add_delta
  flush_all-Distinct answers [] rs h = h
  flush_all-Distinct answers ((id, d) ∷ drained) rs h = elim (Bool-cases (answers id)) [
    | inl e ↦ rw e (
        flush_all-Distinct answers drained (add_delta id d rs)
          (Distinct-map (λ r. if r.id == id then credit d r else r) (credit-Tame id d) rs h))
    | inr e ↦ rw e (flush_all-Distinct answers drained rs h)
  ]

  end_all-Distinct :
      (answers : Text → Bool) (now : ℤ) (os : List (Order W)) (rs : List (OrderRow W))
      → Distinct rs
      → Distinct (end_all answers now os rs).1
  unfolding end_all
  end_all-Distinct answers now [] rs h = h
  end_all-Distinct answers now (o ∷ os) rs h =
      elim (Bool-cases (is_finished now o && answers o.id)) [
        | inl e ↦ rw e (
            end_all-Distinct answers now os (set_status ended_word now o.id rs)
              (set_status-Distinct ended_word now o.id rs ended-ne-active h))
        | inr e ↦ rw e (end_all-Distinct answers now os rs h)
      ]

  create-Distinct :
      (up : Bool) (now : ℤ) (worker : Text) (target : UpstreamTarget)
      (fallback : Option UpstreamTarget) (until_ms : ℤ) (price budget : W) (s : OrderStore W)
      → Distinct s.orders
      → Distinct (create up now worker target fallback until_ms price budget s).1.orders
  unfolding create
  create-Distinct false now worker target fallback until_ms price budget s h = h
  create-Distinct true now worker target fallback until_ms price budget s h =
      let row = new_row (order_id now s.seq) now worker target fallback until_ms price budget in
      ground (arith, Distinct-append row s.orders)

  cancel-Distinct :
      (up up' : Bool) (now : ℤ) (id : Text) (s : OrderStore W)
      → Distinct s.orders
      → Distinct (cancel up up' now id s).1.orders
  unfolding cancel
  cancel-Distinct up up' now id s h =
      ground (arith, set_status-Distinct cancelled_word now id s.orders cancelled-ne-active h)

-- A call of the store, with what the environment decides: the time, and which statements fail.
pub data Op (W : Type 0) : Type 0 where
  creates : Bool → ℤ → Text → UpstreamTarget → Option UpstreamTarget → ℤ → W → W → Op W
  works : Text → W → ℕ → Op W
  submits : Text → ℕ → Op W
  flushes : (Text → Bool) → Op W
  cancels : Bool → Bool → ℤ → Text → Op W
  expires : Bool → (Text → Bool) → ℤ → Op W

module _ {W : Type 0} ⦃f : Float W⦄ where
  unfoldable pub step : Op W → OrderStore W → OrderStore W
  unfolding create add_work add_submitted flush cancel take_expired
  step (creates up now worker target fallback until_ms price budget) s =
      (create up now worker target fallback until_ms price budget s).1
  step (works id work accepted) s = add_work id work accepted s
  step (submits id submitted) s = add_submitted id submitted s
  step (flushes answers) s = flush answers s
  step (cancels up up' now id) s = (cancel up up' now id s).1
  step (expires up answers now) s = (take_expired up answers now s).1

  unfoldable pub run : List (Op W) → OrderStore W → OrderStore W
  unfolding step
  run [] s = s
  run (op ∷ ops) s = run ops (step op s)

  pub step-Distinct :
      (op : Op W) (s : OrderStore W) → Distinct s.orders → Distinct (step op s).orders
  unfolding step
  step-Distinct (creates up now worker target fallback until_ms price budget) s h =
      create-Distinct up now worker target fallback until_ms price budget s h
  step-Distinct (works id work accepted) s h = h
  step-Distinct (submits id submitted) s h = h
  step-Distinct (flushes answers) s h = flush_all-Distinct answers s.pending s.orders h
  step-Distinct (cancels up up' now id) s h = cancel-Distinct up up' now id s h
  step-Distinct (expires up answers now) s h =
      end_all-Distinct answers now
        (if up then map into_order (select is_active_row s.orders) else []) s.orders h

  -- After any history of calls, with any failures of the database, the order ids are distinct and no
  -- worker has two active orders, if that holds at the start.
  pub run-Distinct :
      (ops : List (Op W)) (s : OrderStore W) → Distinct s.orders → Distinct (run ops s).orders
  unfolding run
  run-Distinct [] s h = h
  run-Distinct (op ∷ ops) s h = run-Distinct ops (step op s) (step-Distinct op s h)
