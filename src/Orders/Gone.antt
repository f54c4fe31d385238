-- ===== src/Orders/Gone.antt =====
-- src/orders.rs, `take_expired`: no read of a rental that was due takes a row that is left.
use blitzpool_rental_proxy.Prelude.{
  Text, ◌≡◌, refl, sym, ◌∙◌, ◌⊎◌, inl, inr, Bool, true, false, none, List, [], ◌∷◌, map, arith,
  text_eq, text_beq, text_beq_iff, Bool-cases, &&_true, ap, ◌&&◌, not,
}
use blitzpool_rental_proxy.Prelude.Int.{ℤ, ◌≤ℤ◌}
use blitzpool_rental_proxy.Prelude.Float.{Float}
use blitzpool_rental_proxy.Orders.{is_finished, funding_exhausted}
use blitzpool_rental_proxy.Orders.Row.{OrderRow, into_order}
use blitzpool_rental_proxy.Orders.Store.{
  OrderStore, select, find, is_active_row, is_current, active_for_worker, end_all, take_expired,
}
use blitzpool_rental_proxy.Orders.Unique.{AllRows, Apart, Distinct}
use blitzpool_rental_proxy.Orders.Live.{fetched, fetched-cons}
use blitzpool_rental_proxy.Orders.Finished.{map-id, is_due, expire, take_expired_lem}

module _ {W : Type 0} ⦃f : Float W⦄ where
  abbrev pub Has : (OrderRow W → Type 0) → List (OrderRow W) → Type 0
  Has P [] = ⊥
  Has P (r ∷ rs) = P r ⊎ Has P rs

  -- A due rental of this worker.
  abbrev pub DueFor : Text → ℤ → OrderRow W → Type 0
  DueFor worker now r = (r.worker ≡ worker) × (is_due now r ≡ true)

  -- No active row of this worker.
  abbrev Quiet : Text → OrderRow W → Type 0
  Quiet worker r = r.worker ≡ worker → is_active_row r ≡ false

  expire-due :
      (answers : Text → Bool) (now : ℤ) (r : OrderRow W)
      → is_due now r ≡ true
      → answers r.id ≡ true
      → is_active_row (expire answers now r) ≡ false
  unfolding text_beq
  expire-due answers now r d a = rw (d, a)

  expire-inactive :
      (answers : Text → Bool) (now : ℤ) (r : OrderRow W)
      → is_active_row r ≡ false
      → is_active_row (expire answers now r) ≡ false
  expire-inactive answers now r i = rw i i

  worker-expire :
      (answers : Text → Bool) (now : ℤ) (r : OrderRow W) → (expire answers now r).worker ≡ r.worker
  worker-expire answers now r = ground arith

  active_of_due : (now : ℤ) (r : OrderRow W) → is_due now r ≡ true → is_active_row r ≡ true
  active_of_due now r d = (&&_true (is_active_row r) (is_finished now (into_order r)) d).0

  -- Of two rows that are apart and of one worker, one is not active.
  not_both :
      (r q : OrderRow W)
      → Apart r q
      → r.worker ≡ q.worker
      → is_active_row r ≡ true
      → is_active_row q ≡ false
  not_both r q a e h = elim (Bool-cases (is_active_row q)) [
    | inl k ↦ absurd (a.1 h k e)
    | inr k ↦ k
  ]

  not_both' :
      (r q : OrderRow W)
      → Apart r q
      → r.worker ≡ q.worker
      → is_active_row q ≡ true
      → is_active_row r ≡ false
  not_both' r q a e h = elim (Bool-cases (is_active_row r)) [
    | inl k ↦ absurd (a.1 k h e)
    | inr k ↦ k
  ]

  before_due :
      (now : ℤ) (worker : Text) (r : OrderRow W) (rs : List (OrderRow W))
      → AllRows (Apart r) rs
      → Has (DueFor worker now) rs
      → Quiet worker r
  before_due now worker r [] a h e = absurd h
  before_due now worker r (q ∷ qs) a (inl due) e =
      not_both' r q a.0 (e ∙ sym due.0) (active_of_due now q due.1)
  before_due now worker r (q ∷ qs) a (inr h) e = before_due now worker r qs a.1 h e

  behind_due :
      (answers : Text → Bool) (now : ℤ) (worker : Text) (r : OrderRow W) (rs : List (OrderRow W))
      → DueFor worker now r
      → AllRows (Apart r) rs
      → AllRows (Quiet worker) (map (expire answers now) rs)
  behind_due answers now worker r [] d a = tt
  behind_due answers now worker r (q ∷ qs) d a = (
    λ e. expire-inactive answers now q (
        not_both r q a.0 (d.0 ∙ sym (sym (worker-expire answers now q) ∙ e))
          (active_of_due now r d.1)),
    behind_due answers now worker r qs d a.1,
  )

  -- A row that no read of this worker's rental at the time `later` takes.
  abbrev Gone : Text → ℤ → OrderRow W → Type 0
  Gone worker later r =
      (is_current worker later r && not (funding_exhausted (into_order r))) ≡ false

  Quiet-Gone : (worker : Text) (later : ℤ) (r : OrderRow W) → Quiet worker r → Gone worker later r
  Quiet-Gone worker later r q = ground (arith, text_beq_iff r.worker worker, q)

  Quiet-expire :
      (answers : Text → Bool) (now : ℤ) (worker : Text) (r : OrderRow W)
      → Quiet worker r
      → Quiet worker (expire answers now r)
  Quiet-expire answers now worker r q e =
      expire-inactive answers now r (q (sym (worker-expire answers now r) ∙ e))

  -- A due row that could not be ended is past its end, or out of budget.
  due-Gone :
      (worker : Text) (now later : ℤ) (r : OrderRow W)
      → now ≤ℤ later
      → is_due now r ≡ true
      → Gone worker later r
  unfolding is_finished into_order
  due-Gone worker now later r le d = ground (arith, le, d)

  expire-Gone :
      (answers : Text → Bool) (worker : Text) (now later : ℤ) (r : OrderRow W)
      → now ≤ℤ later
      → is_due now r ≡ true
      → Gone worker later (expire answers now r)
  expire-Gone answers worker now later r le d = elim (Bool-cases (answers r.id)) [
    | inl a ↦ Quiet-Gone worker later (expire answers now r) (λ e. expire-due answers now r d a)
    | inr a ↦ rw (d, a) (due-Gone worker now later r le d)
  ]

  Quiet-all :
      (worker : Text) (later : ℤ) (rs : List (OrderRow W))
      → AllRows (Quiet worker) rs
      → AllRows (Gone worker later) rs
  Quiet-all worker later [] q = tt
  Quiet-all worker later (r ∷ rs) q = (Quiet-Gone worker later r q.0, Quiet-all worker later rs q.1)

  Gone-after :
      (answers : Text → Bool) (now later : ℤ) (worker : Text) (rs : List (OrderRow W))
      → now ≤ℤ later
      → Distinct rs
      → Has (DueFor worker now) rs
      → AllRows (Gone worker later) (map (expire answers now) rs)
  Gone-after answers now later worker [] le d h = absurd h
  Gone-after answers now later worker (r ∷ rs) le d (inl due) = (
    expire-Gone answers worker now later r le due.1,
    Quiet-all worker later (map (expire answers now) rs)
        (behind_due answers now worker r rs due d.0),
  )
  Gone-after answers now later worker (r ∷ rs) le d (inr h) = (
    Quiet-Gone worker later (expire answers now r)
        (Quiet-expire answers now worker r (before_due now worker r rs d.0 h)),
    Gone-after answers now later worker rs le d.1 h,
  )

  nothing_fetched :
      (worker : Text) (later : ℤ) (rs : List (OrderRow W))
      → AllRows (Gone worker later) rs
      → fetched worker later rs ≡ none
  unfolding find select
  nothing_fetched worker later [] g = refl
  nothing_fetched worker later (r ∷ rs) g =
      rw (fetched-cons worker later r rs, g.0) (nothing_fetched worker later rs g.1)

  -- No statement of an expiry is taken.
  expire-none : (now : ℤ) (r : OrderRow W) → expire (λ id. false) now r ≡ r
  expire-none now r = ground arith

  unread :
      (answers : Text → Bool) (now : ℤ) (s : OrderStore W)
      → (take_expired false answers now s).1.orders ≡ s.orders
  unfolding take_expired end_all
  unread answers now s = refl

  -- After an expiry, whichever of its statements were answered, a worker whose rental was due has none
  -- that is read: its miners reconnect to the seller's own pool.
  pub active_for_worker-take_expired :
      (selected : Bool) (answers : Text → Bool) (now later : ℤ) (worker : Text) (s : OrderStore W)
      → Distinct s.orders
      → now ≤ℤ later
      → Has (DueFor worker now) s.orders
      → active_for_worker true worker later (take_expired selected answers now s).1 ≡ none
  unfolding active_for_worker
  active_for_worker-take_expired true answers now later worker s d le h =
      let rows = (take_expired_lem answers now s d).1 in
      ap (fetched worker later) rows
      ∙ nothing_fetched worker later (map (expire answers now) s.orders)
          (Gone-after answers now later worker s.orders le d h)
  active_for_worker-take_expired false answers now later worker s d le h =
      ap (fetched worker later) (unread answers now s)
      ∙ ap (fetched worker later)
          (sym (map-id (expire (λ id. false) now) s.orders (expire-none now)))
      ∙ nothing_fetched worker later (map (expire (λ id. false) now) s.orders)
          (Gone-after (λ id. false) now later worker s.orders le d h)
