-- ===== src/Orders/Created.antt =====
-- src/orders.rs, `create` and `get`: what a new rental leaves in the table, and when it is refused.
use mathlib.Core.Option.{some-injective}
use mathlib.Core.Option
use blitzpool_rental_proxy.Prelude.{
  Text, ℕ, ◌+◌, ◌%◌, ◌^◌, subst, ◌≡◌, refl, sym, ap, ◌∙◌, ◌↔◌, ◌⊎◌, inl, inr, Bool, true, false,
  Option, none, some, List, [], ◌∷◌, ◌++◌, arith, if◌then◌else◌, ◌==◌, text_eq, text_beq,
  text_beq_iff, Result, ok, err, Bool-cases,
}
use blitzpool_rental_proxy.Prelude.Int.{ℤ, pos}
use blitzpool_rental_proxy.Prelude.Float.{Float, nought}
use blitzpool_rental_proxy.Prelude.Decimal.{print, print-injective, split_once-print}
use blitzpool_rental_proxy.Prelude.Strings.{split_once}
use blitzpool_rental_proxy.Session.{UpstreamTarget}
use blitzpool_rental_proxy.Orders.{Order}
use blitzpool_rental_proxy.Orders.Row.{OrderRow, into_order, new_row, active_word}
use blitzpool_rental_proxy.Orders.Store.{
  OrderStore, CreateOrderError, already_active, order_id, find, is_active_row, clashes, violates,
  get, create,
}

ok-injective :
    {W : Type 0} {o o' : Order W}
    → ◌≡◌ {A = Result CreateOrderError (Order W)} (ok o) (ok o')
    → o ≡ o'
ok-injective e = cc

tail_of : Text → Text
tail_of [] = []
tail_of (c ∷ s) = s

order_id-tail :
    (now : ℕ) (seq : ℕ) → tail_of (order_id (pos now) seq) ≡ print now ++ b'-' ∷ print seq
unfolding order_id tail_of
order_id-tail now seq = refl

-- Two orders with one id were made at the same time with the same counter.
pub order_id-injective :
    (now now' seq seq' : ℕ)
    → order_id (pos now) seq ≡ order_id (pos now') seq'
    → (now ≡ now') × (seq ≡ seq')
order_id-injective now now' seq seq' e =
    (print-injective now now' (ap (λ p. p.0) both), print-injective seq seq' (ap (λ p. p.1) both))
  where
    both : ◌≡◌ {A = Text × Text} (print now, print seq) (print now', print seq')
    both = some-injective _ _ (
        sym (split_once-print now (print seq))
        ∙ ap (split_once b'-')
            (sym (order_id-tail now seq) ∙ ap tail_of e ∙ order_id-tail now' seq')
        ∙ split_once-print now' (print seq'))

module _ {W : Type 0} where
  -- Another order with this id, or an active one of this worker, is in the table.
  abbrev pub Taken : Text → Text → List (OrderRow W) → Type 0
  Taken id worker [] = ⊥
  Taken id worker (r ∷ rs) =
      (r.id ≡ id) ⊎ ((r.worker ≡ worker) × (is_active_row r ≡ true)) ⊎ Taken id worker rs

  violates-Taken :
      (new : OrderRow W) (rs : List (OrderRow W))
      → is_active_row new ≡ true
      → (violates new rs ≡ true) ↔ Taken new.id new.worker rs
  unfolding violates clashes
  violates-Taken new [] a = (λ e. cc, λ h. absurd h)
  violates-Taken new (r ∷ rs) a =
      let ih = violates-Taken new rs a in
      (
        λ e. ground (arith, ih.0, text_beq_iff r.id new.id, text_beq_iff r.worker new.worker),
        λ h. ground (arith, ih.1, text_beq_iff r.id new.id, text_beq_iff r.worker new.worker),
      )

  find-append :
      (p : OrderRow W → Bool) (rs : List (OrderRow W)) (new : OrderRow W)
      → find p (rs ++ new ∷ [])
        ≡ elim (find p rs) [ some r ↦ some r | none ↦ if p new then some new else none ]
  unfolding find
  find-append p [] new = refl
  find-append p (r ∷ rs) new = ground (arith, find-append p rs new)

  find-fresh :
      (new : OrderRow W) (rs : List (OrderRow W))
      → violates new rs ≡ false
      → find (λ r. r.id == new.id) rs ≡ none
  unfolding violates clashes find
  find-fresh new [] h = refl
  find-fresh new (r ∷ rs) h = ground (arith, find-fresh new rs)

active-row : (active_word == active_word) ≡ true
unfolding text_beq
active-row = refl

-- A row that `create` writes reads back as the order that it returns.
into_order-new_row :
    {W : Type 0} ⦃f : Float W⦄ (id : Text) (now : ℤ) (worker : Text) (target : UpstreamTarget)
    (fallback : Option UpstreamTarget) (until_ms : ℤ) (price budget : W)
    → into_order (new_row id now worker target fallback until_ms price budget) ≡ record {
      id = id;
      worker = worker;
      target = target;
      fallback = fallback;
      created_ms = now;
      until_ms = until_ms;
      status = blitzpool_rental_proxy.Orders.active;
      ended_ms = pos 0;
      delivered_work = nought;
      accepted_shares = 0;
      submitted_shares = 0;
      price_per_th_day = price;
      budget = budget;
    }
unfolding into_order new_row text_beq
into_order-new_row id now worker target none until_ms price budget = refl
into_order-new_row id now worker target (some fb) until_ms price budget = refl

map-if :
    {W : Type 0} (b : Bool) (row : OrderRow W) (o : Option (OrderRow W))
    → Option.map into_order (if b then some row else o)
      ≡ (if b then some (into_order row) else Option.map into_order o)
map-if true row o = refl
map-if false row o = refl

find-new :
    {W : Type 0} (new : OrderRow W) (rs : List (OrderRow W)) (j : Text)
    → violates new rs ≡ false
    → find (λ r. r.id == j) (rs ++ new ∷ [])
      ≡ (if new.id == j then some new else find (λ r. r.id == j) rs)
find-new new rs j h = elim (Bool-cases (new.id == j)) [
  | inl e ↦ rw (
    find-append (λ r. r.id == j) rs new,
    subst (λ k. find (λ r. r.id == k) rs ≡ none) ((text_beq_iff new.id j).0 e)
        (find-fresh new rs h),
  )
  | inr e ↦ rw (find-append (λ r. r.id == j) rs new, e) (ground arith)
]

module _ {W : Type 0} ⦃f : Float W⦄ (now : ℤ) (worker : Text) (target : UpstreamTarget)
    (fallback : Option UpstreamTarget) (until_ms : ℤ) (price budget : W) (s : OrderStore W) where
  abbrev id_of : Text
  id_of = order_id now s.seq

  abbrev row_of : OrderRow W
  row_of = new_row id_of now worker target fallback until_ms price budget

  row_of-id : row_of.id ≡ id_of
  unfolding new_row
  row_of-id = refl

  row_of-worker : row_of.worker ≡ worker
  unfolding new_row
  row_of-worker = refl

  row_of-active : is_active_row row_of ≡ true
  unfolding new_row
  row_of-active = active-row

  -- When the database answers, the rental is refused as a double one exactly when its id is in use
  -- or its worker has an active order.
  pub create-Taken :
      ((create true now worker target fallback until_ms price budget s).0 ≡ err already_active)
      ↔ Taken id_of worker s.orders
  unfolding create new_row
  create-Taken =
      let both = violates-Taken row_of s.orders row_of-active in
      (λ e. ground (arith, both.0), λ h. ground (arith, both.1))

  -- A refused rental changes no row, whatever the reason.
  pub orders-create-err :
      (up : Bool) (e : CreateOrderError)
      → (create up now worker target fallback until_ms price budget s).0 ≡ err e
      → (create up now worker target fallback until_ms price budget s).1.orders ≡ s.orders
  unfolding create
  orders-create-err up e h = ground arith

  create-ok :
      violates row_of s.orders ≡ false
      → create true now worker target fallback until_ms price budget s ≡ (
        ok (into_order row_of),
        record s { orders = s.orders ++ row_of ∷ []; seq = (s.seq + 1) % 2 ^ 64 },
      )
  unfolding create
  create-ok e = rw (e, into_order-new_row id_of now worker target fallback until_ms price budget)

  create-violates :
      violates row_of s.orders ≡ true
      → (create true now worker target fallback until_ms price budget s).0 ≡ err already_active
  unfolding create
  create-violates e = rw e

  get-new :
      (j : Text)
      → violates row_of s.orders ≡ false
      → get true j (record s { orders = s.orders ++ row_of ∷ []; seq = (s.seq + 1) % 2 ^ 64 })
        ≡ (if (into_order row_of).id == j then some (into_order row_of) else get true j s)
  unfolding get
  get-new j e =
      rw (find-new row_of s.orders j e)
        (map-if (row_of.id == j) row_of (find (λ r. r.id == j) s.orders))

  -- A rental that is accepted reads back as it was returned, fallback pool included, and every other
  -- order reads as before.
  pub get-create :
      (o : Order W)
      → (create true now worker target fallback until_ms price budget s).0 ≡ ok o
      → (j : Text)
      → get true j (create true now worker target fallback until_ms price budget s).1
        ≡ (if o.id == j then some o else get true j s)
  get-create o h j = elim (Bool-cases (violates row_of s.orders)) [
    | inl e ↦ cc (create-violates e)
    | inr e ↦
        let made = create-ok e in
        let same : into_order row_of ≡ o = ok-injective (sym (ap (λ p. p.0) made) ∙ h) in
        rw (made, ← same) (get-new j e)
  ]
