-- ===== src/Orders/Cancelled.antt =====
-- src/orders.rs, `cancel` and a second `take_expired`: what they leave behind.
use mathlib.Core.Option
use blitzpool_rental_proxy.Prelude.{
  Text, ◌≡◌, refl, sym, ap, ◌∙◌, inl, inr, Bool, true, false, ◌&&◌, Option, none, some, List, [],
  ◌∷◌, map, arith, if◌then◌else◌, ◌==◌, text_eq, text_beq, text_beq_iff, Bool-cases, Option-cases,
}
use blitzpool_rental_proxy.Prelude.Int.{ℤ}
use blitzpool_rental_proxy.Prelude.Float.{Float}
use blitzpool_rental_proxy.Orders.{Order, cancelled}
use blitzpool_rental_proxy.Orders.Row.{OrderRow, into_order, cancelled_word}
use blitzpool_rental_proxy.Orders.Store.{OrderStore, select, get, set_status, cancel, take_expired}
use blitzpool_rental_proxy.Orders.Unique.{Distinct, step-Distinct, expires, step}
use blitzpool_rental_proxy.Orders.Accounting.{row_at, row_at-map, row_at-id}
use blitzpool_rental_proxy.Orders.Finished.{is_due, expire, ended_order, take_expired_lem}

module _ {W : Type 0} where
  abbrev pub cancelled_order : ℤ → Order W → Order W
  cancelled_order now o = record o { status = cancelled; ended_ms = now }

  abbrev cancelled_row : Text → ℤ → OrderRow W → OrderRow W
  cancelled_row id now r =
      if r.id == id then record r { status = cancelled_word; ended_ms = now } else r

  row_at-set_status :
      (id j : Text) (now : ℤ) (rs : List (OrderRow W))
      → row_at j (set_status cancelled_word now id rs)
        ≡ Option.map (cancelled_row id now) (row_at j rs)
  unfolding set_status
  row_at-set_status id j now rs = row_at-map (cancelled_row id now) j rs (λ r. ground arith)

  into_order-cancelled :
      (now : ℤ) (r : OrderRow W)
      → into_order (record r { status = cancelled_word; ended_ms = now })
        ≡ cancelled_order now (into_order r)
  unfolding into_order text_beq
  into_order-cancelled now r = refl

  found :
      (id j : Text) (now : ℤ) (o : Option (OrderRow W))
      → ((r : OrderRow W) → o ≡ some r → r.id ≡ j)
      → Option.map into_order (Option.map (cancelled_row id now) o) ≡ (
          if id == j
          then Option.map (cancelled_order now) (Option.map into_order o)
          else Option.map into_order o)
  found id j now none h = ground arith
  found id j now (some r) h = elim (Bool-cases (id == j)) [
    | inl e ↦ rw (
      e,
      (text_beq_iff r.id id).1 (h r refl ∙ sym ((text_beq_iff id j).0 e)),
      into_order-cancelled now r,
    )
    | inr e ↦ rw (e, other e)
  ]
    where
      other : (id == j) ≡ false → (r.id == id) ≡ false
      other e = ground (arith, text_beq_iff r.id id, text_beq_iff id j, h r refl)

  get_row : (j : Text) (s : OrderStore W) → get true j s ≡ Option.map into_order (row_at j s.orders)
  unfolding get
  get_row j s = refl

  cancel-none :
      (up' : Bool) (now : ℤ) (id : Text) (s : OrderStore W)
      → get true id s ≡ none
      → cancel true up' now id s ≡ (none, s)
  unfolding cancel
  cancel-none up' now id s e = rw (e, cancel)

  cancel-some :
      (up' : Bool) (now : ℤ) (id : Text) (s : OrderStore W) (o : Order W)
      → get true id s ≡ some o
      → cancel true up' now id s ≡ (
        some (cancelled_order now o),
        if up' then record s { orders = set_status cancelled_word now id s.orders } else s,
      )
  unfolding cancel
  cancel-some up' now id s o e = rw (e, cancel)

  answer :
      (written : Bool) (now : ℤ) (id : Text) (s : OrderStore W)
      → (cancel true written now id s).0 ≡ Option.map (cancelled_order now) (get true id s)
  answer written now id s = elim (Option-cases (get true id s)) [
    | inl e ↦ rw (cancel-none written now id s e, e) refl
    | inr (o, e) ↦ rw (cancel-some written now id s o e, e) refl
  ]

  unwritten : (now : ℤ) (id : Text) (s : OrderStore W) → (cancel true false now id s).1 ≡ s
  unwritten now id s = elim (Option-cases (get true id s)) [
    | inl e ↦ rw (cancel-none false now id s e) refl
    | inr (o, e) ↦ rw (cancel-some false now id s o e) refl
  ]

  get-cancel_taken :
      (now : ℤ) (id j : Text) (s : OrderStore W)
      → get true j (cancel true true now id s).1
        ≡ (if id == j then Option.map (cancelled_order now) (get true j s) else get true j s)
  get-cancel_taken now id j s = elim (Option-cases (get true id s)) [
    | inl e ↦ rw (cancel-none true now id s e) (missing e)
    | inr (o, e) ↦
        rw
          (
            cancel-some true now id s o e,
            get_row j (record s { orders = set_status cancelled_word now id s.orders }),
            row_at-set_status id j now s.orders,
            found id j now (row_at j s.orders) (row_at-id j s.orders),
          )
          (rw (get_row j s))
  ]
    where
      missing :
          get true id s ≡ none
          → get true j s
            ≡ (if id == j then Option.map (cancelled_order now) (get true j s) else get true j s)
      missing e = elim (Bool-cases (id == j)) [
        | inl k ↦ rw (k, ← (text_beq_iff id j).0 k, e)
        | inr k ↦ rw k
      ]

  -- `read` says whether the lookup of the cancel is answered, `written` whether its update is. Then the
  -- caller gets the order as cancelled now, exactly if the lookup is answered and the order is there,
  -- and also when the update fails. In the table the order reads as cancelled now, whatever its state was
  -- before, if both are answered, and as it was otherwise; and every other order reads as it was.
  pub get-cancel :
      (read written : Bool) (now : ℤ) (id j : Text) (s : OrderStore W)
      → ((cancel read written now id s).0
          ≡ (if read then Option.map (cancelled_order now) (get true id s) else none))
        × (get true j (cancel read written now id s).1 ≡ (
            if read && written && (id == j)
            then Option.map (cancelled_order now) (get true j s)
            else get true j s))
  unfolding cancel get
  get-cancel false written now id j s = (refl, refl)
  get-cancel true true now id j s = (answer true now id s, get-cancel_taken now id j s)
  get-cancel true false now id j s = (answer false now id s, ap (get true j) (unwritten now id s))

and_left : (b c : Bool) → (b && c) ≡ false → c ≡ true → b ≡ false
and_left b c h k = ground arith

module _ {W : Type 0} ⦃f : Float W⦄ where
  not_due :
      (answers : Text → Bool) (now : ℤ) (r : OrderRow W)
      → answers r.id ≡ true
      → is_due now (expire answers now r) ≡ false
  unfolding text_beq
  not_due answers now r a = elim (Bool-cases (is_due now r && answers r.id)) [
    | inl e ↦ rw e
    | inr e ↦ rw e (and_left (is_due now r) (answers r.id) e a)
  ]

  select-none :
      (answers : Text → Bool) (now : ℤ) (rs : List (OrderRow W))
      → ((id : Text) → answers id ≡ true)
      → select (is_due now) (map (expire answers now) rs) ≡ []
  unfolding select
  select-none answers now [] a = refl
  select-none answers now (r ∷ rs) a =
      rw (not_due answers now r (a r.id)) (select-none answers now rs a)

  pub after-Distinct :
      (answers : Text → Bool) (now : ℤ) (s : OrderStore W)
      → Distinct s.orders
      → Distinct (take_expired true answers now s).1.orders
  unfolding step
  after-Distinct answers now s d = step-Distinct (expires true answers now) s d

  -- An order that has finished is reported once: right after an expiry whose statements were all
  -- taken, another one at the same time finds nothing.
  take_expired_again :
      (answers : Text → Bool) (now : ℤ) (s : OrderStore W)
      → Distinct s.orders
      → ((id : Text) → answers id ≡ true)
      → (take_expired true answers now (take_expired true answers now s).1).0 ≡ []
  take_expired_again answers now s d a =
      let s' = (take_expired true answers now s).1 in
      let once = (take_expired_lem answers now s d).1 in
      (take_expired_lem answers now s' (after-Distinct answers now s d)).0
      ∙ ap (λ rs. map (λ r. ended_order now (into_order r)) (select (is_due now) rs)) once
      ∙ ap (map (λ r. ended_order now (into_order r))) (select-none answers now s.orders a)
