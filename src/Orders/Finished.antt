-- ===== src/Orders/Finished.antt =====
-- src/orders.rs, `take_expired` and `cancel`: how orders end.
use blitzpool_rental_proxy.Prelude.{
  Text, ◌≡◌, refl, sym, ap, ap₂, ◌∙◌, ◌≢◌, inl, inr, Bool, true, false, ◌&&◌, ◌||◌, List, [], ◌∷◌,
  map, arith, if◌then◌else◌, ◌==◌, text_eq, text_beq_iff, Bool-cases,
}
use blitzpool_rental_proxy.Prelude.Int.{ℤ}
use blitzpool_rental_proxy.Prelude.Float.{Float}
use blitzpool_rental_proxy.Orders.{Order, ended, is_finished}
use blitzpool_rental_proxy.Orders.Row.{OrderRow, into_order, ended_word}
use blitzpool_rental_proxy.Orders.Store.{
  OrderStore, select, is_active_row, set_status, end_all, take_expired,
}
use blitzpool_rental_proxy.Orders.Unique.{AllRows, Apart, Distinct}

or_false : (b : Bool) → (b || false) ≡ b
or_false true = refl
or_false false = refl

beq_false : (s t : Text) → s ≢ t → (s == t) ≡ false
beq_false s t h = ground (arith, text_beq_iff s t)

module _ {W : Type 0} where
  map-map :
      (g h k : OrderRow W → OrderRow W)
      → ((r : OrderRow W) → g (h r) ≡ k r)
      → (rs : List (OrderRow W)) → map g (map h rs) ≡ map k rs
  map-map g h k e [] = refl
  map-map g h k e (r ∷ rs) = ap₂ ◌∷◌ (e r) (map-map g h k e rs)

  pub map-id :
      (g : OrderRow W → OrderRow W) (rs : List (OrderRow W))
      → ((r : OrderRow W) → g r ≡ r)
      → map g rs ≡ rs
  map-id g [] h = refl
  map-id g (r ∷ rs) h = ap₂ ◌∷◌ (h r) (map-id g rs h)

  map-same :
      (g h : OrderRow W → OrderRow W) (rs : List (OrderRow W))
      → AllRows (λ r. g r ≡ h r) rs
      → map g rs ≡ map h rs
  map-same g h [] e = refl
  map-same g h (r ∷ rs) e = ap₂ ◌∷◌ e.0 (map-same g h rs e.1)

  AllRows-both :
      (P Q R : OrderRow W → Type 0) (rs : List (OrderRow W))
      → ((r : OrderRow W) → P r → Q r → R r)
      → AllRows P rs
      → AllRows Q rs
      → AllRows R rs
  AllRows-both P Q R [] h p q = tt
  AllRows-both P Q R (r ∷ rs) h p q = (h r p.0 q.0, AllRows-both P Q R rs h p.1 q.1)

module _ {W : Type 0} ⦃f : Float W⦄ where
  -- An active row whose order is past its end or out of budget.
  abbrev pub is_due : ℤ → OrderRow W → Bool
  is_due now r = is_active_row r && is_finished now (into_order r)

  abbrev pub ended_row : ℤ → OrderRow W → OrderRow W
  ended_row now r = record r { status = ended_word; ended_ms = now }

  abbrev pub ended_order : ℤ → Order W → Order W
  ended_order now o = record o { status = ended; ended_ms = now }

  -- The rows that one expiry leaves: the due ones are ended, if the database takes their statement.
  abbrev pub expire : (Text → Bool) → ℤ → OrderRow W → OrderRow W
  expire answers now r = if is_due now r && answers r.id then ended_row now r else r

  id-into_order : (r : OrderRow W) → (into_order r).id ≡ r.id
  unfolding into_order
  id-into_order r = refl

  end_all-orders :
      (answers : Text → Bool) (now : ℤ) (rs table : List (OrderRow W))
      → (end_all answers now (map into_order (select is_active_row rs)) table).0
        ≡ map (λ r. ended_order now (into_order r)) (select (is_due now) rs)
  unfolding end_all select
  end_all-orders answers now [] table = refl
  end_all-orders answers now (r ∷ rs) table = elim (Bool-cases (is_active_row r)) [
    | inl a ↦ elim (Bool-cases (is_finished now (into_order r))) [
      | inl d ↦
          rw (a, d)
            (ap (λ os. ended_order now (into_order r) ∷ os)
              (end_all-orders answers now rs (
                if answers (into_order r).id
                then set_status ended_word now (into_order r).id table
                else table)))
      | inr d ↦ rw (a, d) (end_all-orders answers now rs table)
    ]
    | inr a ↦ rw a (end_all-orders answers now rs table)
  ]

  -- Some due row of the list has the id of `r`, and its statement is taken.
  named : (Text → Bool) → ℤ → List (OrderRow W) → OrderRow W → Bool
  named answers now [] r = false
  named answers now (q ∷ qs) r =
      ((r.id == q.id) && is_due now q && answers q.id) || named answers now qs r

  abbrev closing : (Text → Bool) → ℤ → List (OrderRow W) → OrderRow W → OrderRow W
  closing answers now rs r = if named answers now rs r then ended_row now r else r

  named-id :
      (answers : Text → Bool) (now : ℤ) (rs : List (OrderRow W)) (r r' : OrderRow W)
      → r.id ≡ r'.id
      → named answers now rs r ≡ named answers now rs r'
  unfolding named
  named-id answers now [] r r' e = refl
  named-id answers now (q ∷ qs) r r' e =
      ap₂ (λ a b. ((a == q.id) && is_due now q && answers q.id) || b) e
        (named-id answers now qs r r' e)

  -- The statement for one due order.
  abbrev close : Bool → ℤ → Text → OrderRow W → OrderRow W
  close b now id q = if (q.id == id) && b then ended_row now q else q

  set_status-close :
      (b : Bool) (now : ℤ) (id : Text) (table : List (OrderRow W))
      → (if b then set_status ended_word now id table else table) ≡ map (close b now id) table
  unfolding set_status
  set_status-close b now id [] = ground arith
  set_status-close b now id (q ∷ table) = ground (arith, set_status-close b now id table)

  closing-close :
      (answers : Text → Bool) (now : ℤ) (r : OrderRow W) (rs : List (OrderRow W)) (q : OrderRow W)
      → closing answers now rs (close (is_due now r && answers r.id) now r.id q)
        ≡ closing answers now (r ∷ rs) q
  unfolding named
  closing-close answers now r rs q =
      rw
        (named-id answers now rs (close (is_due now r && answers r.id) now r.id q) q (ground arith))
        (ground arith)

  end_all-first :
      (answers : Text → Bool) (now : ℤ) (r : OrderRow W) (rs table : List (OrderRow W))
      → (end_all answers now (map into_order (select is_active_row (r ∷ rs))) table).1
        ≡ (end_all answers now (map into_order (select is_active_row rs)) (
            if is_due now r && answers r.id then set_status ended_word now r.id table else table)).1
  unfolding end_all select into_order
  end_all-first answers now r rs table = elim (Bool-cases (is_active_row r)) [
    | inl a ↦ rw a
    | inr a ↦ rw a
  ]

  end_all-nil :
      (answers : Text → Bool) (now : ℤ) (table : List (OrderRow W))
      → (end_all answers now [] table).1 ≡ table
  unfolding end_all
  end_all-nil answers now table = refl

  closing-nil : (answers : Text → Bool) (now : ℤ) (r : OrderRow W) → closing answers now [] r ≡ r
  unfolding named
  closing-nil answers now r = refl

  end_all-rows :
      (answers : Text → Bool) (now : ℤ) (rs table : List (OrderRow W))
      → (end_all answers now (map into_order (select is_active_row rs)) table).1
        ≡ map (closing answers now rs) table
  unfolding select
  end_all-rows answers now [] table =
      end_all-nil answers now table ∙ sym (map-id _ table (closing-nil answers now))
  end_all-rows answers now (r ∷ rs) table =
      end_all-first answers now r rs table
      ∙ end_all-rows answers now rs
          (if is_due now r && answers r.id then set_status ended_word now r.id table else table)
      ∙ ap (map (closing answers now rs)) (set_status-close _ now r.id table)
      ∙ map-map _ _ _ (closing-close answers now r rs) table

  named-absent :
      (answers : Text → Bool) (now : ℤ) (r : OrderRow W) (rs : List (OrderRow W))
      → AllRows (Apart r) rs
      → named answers now rs r ≡ false
  unfolding named
  named-absent answers now r [] a = refl
  named-absent answers now r (q ∷ qs) a =
      ground (arith, a.0.0, text_beq_iff r.id q.id, named-absent answers now r qs a.1)

  named-Distinct :
      (answers : Text → Bool) (now : ℤ) (rs : List (OrderRow W))
      → Distinct rs
      → AllRows (λ r. named answers now rs r ≡ (is_due now r && answers r.id)) rs
  unfolding named
  named-Distinct answers now [] d = tt
  named-Distinct answers now (q ∷ qs) d = (
    rw ((text_beq_iff q.id q.id).1 refl, named-absent answers now q qs d.0) (or_false _),
    AllRows-both (Apart q) (λ r. named answers now qs r ≡ (is_due now r && answers r.id)) _ qs
        (λ r a e. rw (beq_false r.id q.id (λ k. a.0 (sym k)), e)) d.0
        (named-Distinct answers now qs d.1),
  )

  pub take_expired_lem :
      (answers : Text → Bool) (now : ℤ) (s : OrderStore W)
      → Distinct s.orders
      → ((take_expired true answers now s).0
          ≡ map (λ r. ended_order now (into_order r)) (select (is_due now) s.orders))
        × ((take_expired true answers now s).1.orders ≡ map (expire answers now) s.orders)
  unfolding take_expired
  take_expired_lem answers now s d = (
    end_all-orders answers now s.orders s.orders,
    end_all-rows answers now s.orders s.orders
        ∙ map-same _ _ s.orders (
            AllRows-both (λ r. named answers now s.orders r ≡ (is_due now r && answers r.id))
              (λ r. named answers now s.orders r ≡ (is_due now r && answers r.id)) _ s.orders
              (λ r e _. rw e) (named-Distinct answers now s.orders d)
              (named-Distinct answers now s.orders d)),
  )
