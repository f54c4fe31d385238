-- ===== src/Orders/Accounting.antt =====
-- src/orders.rs, `add_work`, `add_submitted` and `flush`: the shares of each order are counted once.
use mathlib.Core.Option
use blitzpool_rental_proxy.Prelude.{
  Text, ℕ, ◌+◌, ◌≡◌, refl, sym, ap, ◌∙◌, inl, inr, Bool, true, false, Option, none, some, List, [],
  ◌∷◌, map, arith, if◌then◌else◌, ◌==◌, text_eq, text_beq_iff, Bool-cases, Option-cases, subst,
}
use blitzpool_rental_proxy.Prelude.Dict.{
  Dict, lookup, insert, lookup-insert, UniqueKeys, insert-UniqueKeys,
}
use blitzpool_rental_proxy.Prelude.Int.{ℤ, ◌+ℤ◌, as_i64, +ℤ_zero, as_i64-zero}
use blitzpool_rental_proxy.Prelude.Float.{Float}
use blitzpool_rental_proxy.Orders.Row.{OrderRow}
use blitzpool_rental_proxy.Orders.Store.{
  OrderStore, WorkDelta, find, buffered, add_work, add_submitted, credit, add_delta, flush_all,
  flush,
}

map-same {ℓ} :
    {A : Type ℓ} (g g' : A → A) (o : Option A)
    → ((r : A) → o ≡ some r → g r ≡ g' r)
    → Option.map g o ≡ Option.map g' o
map-same g g' none h = refl
map-same g g' (some r) h = ap some (h r refl)

map-twice {ℓ} :
    {A : Type ℓ} (g h k : A → A) (o : Option A)
    → ((r : A) → g (h r) ≡ k r)
    → Option.map g (Option.map h o) ≡ Option.map k o
map-twice g h k none e = refl
map-twice g h k (some r) e = ap some (e r)

map-none {ℓ} : {A : Type ℓ} (g : A → A) (o : Option A) → ((r : A) → g r ≡ r) → Option.map g o ≡ o
map-none g none h = refl
map-none g (some r) h = ap some (h r)

module _ {W : Type 0} where
  abbrev pub row_at : Text → List (OrderRow W) → Option (OrderRow W)
  row_at j rs = find (λ r. r.id == j) rs

  pub row_at-map :
      (g : OrderRow W → OrderRow W) (j : Text) (rs : List (OrderRow W))
      → ((r : OrderRow W) → (g r).id ≡ r.id)
      → row_at j (map g rs) ≡ Option.map g (row_at j rs)
  unfolding find
  row_at-map g j [] h = refl
  row_at-map g j (r ∷ rs) h =
      subst
        (λ k.
          (if k == j then some (g r) else row_at j (map g rs))
          ≡ Option.map g (if r.id == j then some r else row_at j rs))
        (sym (h r))
        (elim (Bool-cases (r.id == j)) [ inl e ↦ rw e | inr e ↦ rw e (row_at-map g j rs h) ])

  pub row_at-id :
      (j : Text) (rs : List (OrderRow W)) (r : OrderRow W) → row_at j rs ≡ some r → r.id ≡ j
  unfolding find
  row_at-id j [] r e = cc
  row_at-id j (q ∷ rs) r e = ground (arith, row_at-id j rs r, text_beq_iff q.id j)

module _ {W : Type 0} ⦃f : Float W⦄ where
  -- What a flush does to the row of an order with this buffered delta.
  abbrev pub settle : Bool → Option (WorkDelta W) → OrderRow W → OrderRow W
  settle true (some d) r = credit d r
  settle true none r = r
  settle false d r = r

  id-credit :
      (id : Text) (d : WorkDelta W) (r : OrderRow W)
      → (if r.id == id then credit d r else r).id ≡ r.id
  unfolding credit
  id-credit id d r = ground arith

  row_at-add_delta :
      (id j : Text) (d : WorkDelta W) (rs : List (OrderRow W))
      → row_at j (add_delta id d rs)
        ≡ Option.map (λ r. if r.id == id then credit d r else r) (row_at j rs)
  unfolding add_delta
  row_at-add_delta id j d rs =
      row_at-map (λ r. if r.id == id then credit d r else r) j rs (id-credit id d)

  settle-none : (b : Bool) (r : OrderRow W) → settle b none r ≡ r
  settle-none true r = refl
  settle-none false r = refl

  abbrev delta_for : Text → Text → WorkDelta W → Option (WorkDelta W)
  delta_for id j d = if id == j then some d else none

  -- One statement of the flush, at the row of `j`.
  row_at-update :
      (a : Bool) (id j : Text) (d : WorkDelta W) (rs : List (OrderRow W))
      → row_at j (if a then add_delta id d rs else rs)
        ≡ Option.map (settle a (delta_for id j d)) (row_at j rs)
  row_at-update true id j d rs =
      row_at-add_delta id j d rs
      ∙ map-same (λ r. if r.id == id then credit d r else r) (settle true (delta_for id j d))
          (row_at j rs)
          λ r e. ground (arith, row_at-id j rs r, text_beq_iff r.id id, text_beq_iff id j)
  row_at-update false id j d rs = sym (map-none _ (row_at j rs) (λ r. refl))

  settle-settle :
      (answers : Text → Bool) (id j : Text) (d : WorkDelta W) (drained : Dict Text (WorkDelta W))
      (r : OrderRow W)
      → lookup id drained ≡ none
      → settle (answers j) (lookup j drained) (settle (answers id) (delta_for id j d) r)
        ≡ settle (answers j) (if id == j then some d else lookup j drained) r
  settle-settle answers id j d drained r u = elim (Bool-cases (id == j)) [
    | inl e ↦ rw e (
        subst
          (λ k.
            settle (answers k) (lookup k drained) (settle (answers id) (some d) r)
            ≡ settle (answers k) (some d) r)
          ((text_beq_iff id j).0 e) (rw (u, settle-none (answers id)) refl))
    | inr e ↦ rw (e, settle-none (answers id))
  ]

  row_at-flush_all :
      (answers : Text → Bool) (drained : Dict Text (WorkDelta W)) (rs : List (OrderRow W))
      (j : Text)
      → UniqueKeys drained
      → row_at j (flush_all answers drained rs)
        ≡ Option.map (settle (answers j) (lookup j drained)) (row_at j rs)
  unfolding flush_all lookup
  row_at-flush_all answers [] rs j u = sym (map-none _ (row_at j rs) (settle-none (answers j)))
  row_at-flush_all answers ((id, d) ∷ drained) rs j u =
      row_at-flush_all answers drained (if answers id then add_delta id d rs else rs) j u.1
      ∙ ap (Option.map (settle (answers j) (lookup j drained)))
          (row_at-update (answers id) id j d rs)
      ∙ map-twice _ _ _ (row_at j rs) (λ r. settle-settle answers id j d drained r u.0)

  -- A flush adds the buffered delta of an order to its row, once, if the database takes the
  -- statement of that order, and leaves nothing buffered.
  pub flush_lem :
      (answers : Text → Bool) (s : OrderStore W) (j : Text)
      → UniqueKeys s.pending
      → (row_at j (flush answers s).orders
          ≡ Option.map (settle (answers j) (lookup j s.pending)) (row_at j s.orders))
        × ((flush answers s).pending ≡ [])
  unfolding flush
  flush_lem answers s j u = (row_at-flush_all answers s.pending s.orders j u, refl)

  buffered-insert :
      (id j : Text) (d : WorkDelta W) (m : Dict Text (WorkDelta W))
      → buffered j (insert id d m) ≡ (if id == j then d else buffered j m)
  unfolding buffered
  buffered-insert id j d m = rw (lookup-insert id j d m, buffered) (ground arith)

  if-same :
      (id j : Text) (g : Text → WorkDelta W) (d : WorkDelta W)
      → (if id == j then g id else d) ≡ (if id == j then g j else d)
  if-same id j g d = elim (Bool-cases (id == j)) [
    | inl e ↦ rw e (ap g ((text_beq_iff id j).0 e))
    | inr e ↦ rw e
  ]

  -- The buffer keeps one entry for each order, and a share is added to its own order only.
  pub buffered-add_work :
      (id j : Text) (work : W) (accepted : ℕ) (s : OrderStore W)
      → buffered j (add_work id work accepted s).pending ≡ (
          let d = buffered j s.pending in
          if id == j
          then record d { work = f.add d.work work; accepted = d.accepted + accepted }
          else d)
  unfolding add_work
  buffered-add_work id j work accepted s =
      buffered-insert id j _ s.pending
      ∙ if-same id j
          (λ k. record (buffered k s.pending) {
            work = f.add (buffered k s.pending).work work;
            accepted = (buffered k s.pending).accepted + accepted;
          })
          (buffered j s.pending)

  pub UniqueKeys-add_work :
      (id : Text) (work : W) (accepted : ℕ) (s : OrderStore W)
      → UniqueKeys s.pending
      → UniqueKeys (add_work id work accepted s).pending
  unfolding add_work
  UniqueKeys-add_work id work accepted s u = insert-UniqueKeys id _ s.pending u

  pub UniqueKeys-add_submitted :
      (id : Text) (submitted : ℕ) (s : OrderStore W)
      → UniqueKeys s.pending
      → UniqueKeys (add_submitted id submitted s).pending
  unfolding add_submitted
  UniqueKeys-add_submitted id submitted s u = insert-UniqueKeys id _ s.pending u

  -- The accepted shares of an order, recorded and buffered.
  abbrev pub total_accepted : Text → OrderStore W → Option ℤ
  total_accepted j s =
      Option.map (λ r. r.accepted_shares +ℤ as_i64 (buffered j s.pending).accepted)
        (row_at j s.orders)

  settled_shares :
      (j : Text) (m : Dict Text (WorkDelta W)) (r : OrderRow W)
      → (settle true (lookup j m) r).accepted_shares +ℤ as_i64 (buffered {W = W} j []).accepted
        ≡ r.accepted_shares +ℤ as_i64 (buffered j m).accepted
  unfolding buffered credit lookup
  settled_shares j m r = elim (Option-cases (lookup j m)) [
    | inl e ↦ rw (e, buffered)
    | inr (d, e) ↦ rw (e, buffered, as_i64-zero, +ℤ_zero)
  ]

  settled_total :
      (j : Text) (m : Dict Text (WorkDelta W)) (o : Option (OrderRow W))
      → Option.map
          (λ r. r.accepted_shares +ℤ as_i64 (buffered {W = W} j []).accepted)
          (Option.map (settle true (lookup j m)) o)
        ≡ Option.map (λ r. r.accepted_shares +ℤ as_i64 (buffered j m).accepted) o
  settled_total j m none = refl
  settled_total j m (some r) = ap some (settled_shares j m r)

  -- A flush whose statement for the order is taken neither loses nor doubles one of its shares.
  total_accepted-flush :
      (answers : Text → Bool) (s : OrderStore W) (j : Text)
      → UniqueKeys s.pending
      → answers j ≡ true
      → total_accepted j (flush answers s) ≡ total_accepted j s
  unfolding flush
  total_accepted-flush answers s j u a =
      ap (Option.map (λ r. r.accepted_shares +ℤ as_i64 (buffered {W = W} j []).accepted))
        (rw (row_at-flush_all answers s.pending s.orders j u, a))
      ∙ settled_total j s.pending (row_at j s.orders)

  -- A flush whose statement for the order fails forgets what was buffered for it.
  total_accepted-flush_failed :
      (answers : Text → Bool) (s : OrderStore W) (j : Text)
      → UniqueKeys s.pending
      → answers j ≡ false
      → (row_at j (flush answers s).orders ≡ row_at j s.orders)
        × (lookup j (flush answers s).pending ≡ none)
  unfolding flush lookup
  total_accepted-flush_failed answers s j u a = (
    rw (row_at-flush_all answers s.pending s.orders j u, a)
        (map-none _ (row_at j s.orders) (λ r. refl)),
    refl,
  )
