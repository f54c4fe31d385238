-- ===== src/Orders/Store.antt =====
-- src/orders.rs, `OrderStore`: the table `orders` with its statements, and the share accounting that
-- waits in memory. A statement that SQLite may refuse takes whether it does not: a Bool, or for a
-- statement that is run once per order a function of the order's id.
use mathlib.Core.Option
use blitzpool_rental_proxy.Prelude.{
  Text, ℕ, ◌+◌, ◌%◌, ◌^◌, Bool, false, ◌&&◌, ◌||◌, not, Option, none, some, List, [], ◌∷◌, ◌++◌,
  map, if◌then◌else◌, ◌==◌, text_eq, Result, ok, err,
}
use blitzpool_rental_proxy.Prelude.Decimal.{print, print_ℤ}
use blitzpool_rental_proxy.Prelude.Dict.{Dict, lookup, insert}
use blitzpool_rental_proxy.Prelude.Int.{ℤ, pos, ◌+ℤ◌, as_i64, eqb_ℤ, ltb_ℤ, leb_ℤ}
use blitzpool_rental_proxy.Prelude.Float.{Float, nought}
use blitzpool_rental_proxy.Session.{UpstreamTarget}
use blitzpool_rental_proxy.Orders.{Order, cancelled, ended, funding_exhausted, is_finished}
use blitzpool_rental_proxy.Orders.Row.{
  OrderRow, into_order, new_row, active_word, ended_word, cancelled_word,
}

pub record WorkDelta (W : Type 0) : Type 0 where
  pub work : W
  pub accepted : ℕ
  pub submitted : ℕ

pub record OrderStore (W : Type 0) : Type 0 where
  -- the table, in the order of insertion
  pub orders : List (OrderRow W)
  pub pending : Dict Text (WorkDelta W)
  -- the process-wide counter behind the ids
  pub seq : ℕ

pub data CreateOrderError : Type 0 where
  already_active : CreateOrderError
  db : CreateOrderError

-- format!("o{}-{}", now, seq)
unfoldable pub order_id : ℤ → ℕ → Text
unfolding print print_ℤ
order_id now seq = b'o' ∷ (print_ℤ now ++ b'-' ∷ print seq)

module _ {ℓ} {A : Type ℓ} where
  -- A `SELECT`: the rows that pass.
  unfoldable pub select : (A → Bool) → List A → List A
  select p [] = []
  select p (r ∷ rs) = let kept = select p rs in if p r then r ∷ kept else kept

  -- Iterator::find, and a `SELECT` of which one row is fetched
  unfoldable pub find : (A → Bool) → List A → Option A
  find p [] = none
  find p (r ∷ rs) = if p r then some r else find p rs

module _ {W : Type 0} where
  abbrev pub is_active_row : OrderRow W → Bool
  is_active_row r = r.status == active_word

  -- The unique indices: on `id`, and on `worker` among the active rows (migration 0004).
  unfoldable pub clashes : OrderRow W → OrderRow W → Bool
  clashes new r =
      (r.id == new.id) || ((r.worker == new.worker) && is_active_row r && is_active_row new)

  unfoldable pub violates : OrderRow W → List (OrderRow W) → Bool
  unfolding clashes
  violates new [] = false
  violates new (r ∷ rs) = clashes new r || violates new rs

  -- UPDATE orders SET status = ?, ended_ms = ? WHERE id = ?
  unfoldable pub set_status : Text → ℤ → Text → List (OrderRow W) → List (OrderRow W)
  set_status word now id =
      map (λ r. if r.id == id then record r { status = word; ended_ms = now } else r)

  unfoldable pub get : Bool → Text → OrderStore W → Option (Order W)
  unfolding find into_order
  get up id s = if up then Option.map into_order (find (λ r. r.id == id) s.orders) else none

  unfoldable pub list : Bool → OrderStore W → List (Order W)
  unfolding into_order
  list up s = if up then map into_order s.orders else []

  -- ORDER BY created_ms ASC; rows of one instant stay as they are
  unfoldable pub insert_by_created : OrderRow W → List (OrderRow W) → List (OrderRow W)
  insert_by_created r [] = r ∷ []
  insert_by_created r (q ∷ qs) =
      if leb_ℤ r.created_ms q.created_ms then r ∷ q ∷ qs else q ∷ insert_by_created r qs

  unfoldable pub sort_by_created : List (OrderRow W) → List (OrderRow W)
  unfolding insert_by_created
  sort_by_created [] = []
  sort_by_created (r ∷ rs) = insert_by_created r (sort_by_created rs)

  unfoldable pub list_for_worker : Bool → Text → OrderStore W → List (Order W)
  unfolding select sort_by_created into_order
  list_for_worker up worker s =
      if up
      then map into_order (sort_by_created (select (λ r. r.worker == worker) s.orders))
      else []

  -- The first Bool is for the `SELECT`, the second for the `UPDATE`, whose error is dropped.
  unfoldable pub cancel : Bool → Bool → ℤ → Text → OrderStore W → Option (Order W) × OrderStore W
  unfolding get set_status
  cancel up up' now id s = elim (get up id s) [
    | none ↦ (none, s)
    | some existing ↦ (
      some (record existing { status = cancelled; ended_ms = now }),
      if up' then record s { orders = set_status cancelled_word now id s.orders } else s,
    )
  ]

  -- The rows of a worker that the statement of `active_for_worker` fetches.
  abbrev pub is_current : Text → ℤ → OrderRow W → Bool
  is_current worker now r =
      (r.worker == worker) && is_active_row r && (eqb_ℤ r.until_ms (pos 0) || ltb_ℤ now r.until_ms)

module _ {W : Type 0} ⦃f : Float W⦄ where
  unfoldable pub create :
      Bool
      → ℤ
      → Text
      → UpstreamTarget
      → Option UpstreamTarget
      → ℤ
      → W
      → W
      → OrderStore W
      → Result CreateOrderError (Order W) × OrderStore W
  unfolding violates new_row
  create up now worker target fallback until_ms price budget s =
      let id = order_id now s.seq in
      let s' = record s { seq = (s.seq + 1) % 2 ^ 64 } in
      let row = new_row id now worker target fallback until_ms price budget in
      if not up
      then (err db, s')
      else if violates row s.orders
      then (err already_active, s')
      else (ok (created id), record s' { orders = s.orders ++ row ∷ [] })
    where
      created : Text → Order W
      created id = record {
        id = id;
        worker = worker;
        target = target;
        fallback = fallback;
        created_ms = now;
        until_ms = until_ms;
        status = blitzpool_rental_proxy.Orders.active;
        ended_ms = pos 0;
        delivered_work = nought;
        accepted_shares = 0;
        submitted_shares = 0;
        price_per_th_day = price;
        budget = budget;
      }

  unfoldable pub active_for_worker : Bool → Text → ℤ → OrderStore W → Option (Order W)
  unfolding select find into_order
  active_for_worker up worker now s =
      if up
      then find (λ o. not (funding_exhausted o))
          (map into_order (select (is_current worker now) s.orders))
      else none

  no_work : WorkDelta W
  no_work = record { work = nought; accepted = 0; submitted = 0 }

  unfoldable pub buffered : Text → Dict Text (WorkDelta W) → WorkDelta W
  unfolding no_work
  buffered id pending = elim (lookup id pending) [ none ↦ no_work | some d ↦ d ]

  unfoldable pub add_work : Text → W → ℕ → OrderStore W → OrderStore W
  add_work id work accepted s =
      let d = buffered id s.pending in
      record s {
        pending =
            insert id (record d { work = f.add d.work work; accepted = d.accepted + accepted })
              s.pending;
      }

  unfoldable pub add_submitted : Text → ℕ → OrderStore W → OrderStore W
  add_submitted id submitted s =
      let d = buffered id s.pending in
      record s { pending = insert id (record d { submitted = d.submitted + submitted }) s.pending }

  unfoldable pub credit : WorkDelta W → OrderRow W → OrderRow W
  credit d r = record r {
    delivered_work = f.add r.delivered_work d.work;
    accepted_shares = r.accepted_shares +ℤ as_i64 d.accepted;
    submitted_shares = r.submitted_shares +ℤ as_i64 d.submitted;
  }

  -- UPDATE orders SET delivered_work = delivered_work + ?, … WHERE id = ?
  unfoldable pub add_delta : Text → WorkDelta W → List (OrderRow W) → List (OrderRow W)
  unfolding credit
  add_delta id d = map (λ r. if r.id == id then credit d r else r)

  -- One statement for each buffered order; an error of it is dropped.
  unfoldable pub flush_all :
      (Text → Bool) → Dict Text (WorkDelta W) → List (OrderRow W) → List (OrderRow W)
  unfolding add_delta
  flush_all answers [] rows = rows
  flush_all answers ((id, d) ∷ drained) rows =
      flush_all answers drained (if answers id then add_delta id d rows else rows)

  unfoldable pub flush : (Text → Bool) → OrderStore W → OrderStore W
  unfolding flush_all
  flush answers s = record s { orders = flush_all answers s.pending s.orders; pending = [] }

  -- The loop of `take_expired` over the active orders that were fetched.
  unfoldable pub end_all :
      (Text → Bool) → ℤ → List (Order W) → List (OrderRow W) → List (Order W) × List (OrderRow W)
  unfolding set_status
  end_all answers now [] rows = ([], rows)
  end_all answers now (o ∷ os) rows =
      let done = is_finished now o in
      let (rest, rows') =
        end_all answers now os
          (if done && answers o.id then set_status ended_word now o.id rows else rows) in
      (if done then record o { status = ended; ended_ms = now } ∷ rest else rest, rows')

  unfoldable pub take_expired :
      Bool → (Text → Bool) → ℤ → OrderStore W → List (Order W) × OrderStore W
  unfolding select into_order end_all
  take_expired up answers now s =
      let active = if up then map into_order (select is_active_row s.orders) else [] in
      let (finished, rows) = end_all answers now active s.orders in
      (finished, record s { orders = rows })
