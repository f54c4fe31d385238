-- ===== src/Orders/Expiry.antt =====
-- src/orders.rs, `spawn_expiry`: one round of the background task, and what a miner of a finished
-- rental finds when it reconnects.
use blitzpool_rental_proxy.Prelude.{
  Text, ◌≡◌, sym, ◌⊎◌, inl, inr, Bool, true, none, List, [], ◌∷◌, ◌++◌, map, text_eq, Bool-cases,
  subst,
}
use blitzpool_rental_proxy.Prelude.Int.{ℤ, ◌≤ℤ◌}
use blitzpool_rental_proxy.Prelude.Float.{Float}
use blitzpool_rental_proxy.Control.{AnySession}
use blitzpool_rental_proxy.Registry.{Registry, get_all}
use blitzpool_rental_proxy.Orders.{Order}
use blitzpool_rental_proxy.Orders.Row.{OrderRow, into_order}
use blitzpool_rental_proxy.Orders.Store.{OrderStore, select, active_for_worker, flush, take_expired}
use blitzpool_rental_proxy.Orders.Unique.{Distinct, step, step-Distinct, flushes}
use blitzpool_rental_proxy.Orders.Finished.{is_due, ended_order, take_expired_lem}
use blitzpool_rental_proxy.Orders.Gone.{Has, DueFor, active_for_worker-take_expired}

abbrev pub InList : AnySession → List AnySession → Type 0
InList x [] = ⊥
InList x (y ∷ ys) = (x ≡ y) ⊎ InList x ys

InList-left : (x : AnySession) (xs ys : List AnySession) → InList x xs → InList x (xs ++ ys)
InList-left x [] ys h = absurd h
InList-left x (z ∷ zs) ys (inl e) = inl e
InList-left x (z ∷ zs) ys (inr h) = inr (InList-left x zs ys h)

InList-right : (x : AnySession) (xs ys : List AnySession) → InList x ys → InList x (xs ++ ys)
InList-right x [] ys h = h
InList-right x (z ∷ zs) ys h = inr (InList-right x zs ys h)

module _ {W : Type 0} ⦃f : Float W⦄ where
  -- The sessions of every finished order, each of which is told to reconnect.
  unfoldable pub told : Registry → List (Order W) → List AnySession
  told registry [] = []
  told registry (o ∷ os) = get_all o.worker registry ++ told registry os

  -- flush, then take_expired, then force_reconnect; the two sets of statements fail apart.
  unfoldable pub expiry_round :
      (Text → Bool)
      → Bool
      → (Text → Bool)
      → ℤ
      → Registry
      → OrderStore W
      → List AnySession × OrderStore W
  unfolding told
  expiry_round flushed up answers now registry s =
      let (finished, s') = take_expired up answers now (flush flushed s) in
      (told registry finished, s')

  told-due :
      (registry : Registry) (now : ℤ) (worker : Text) (x : AnySession) (rs : List (OrderRow W))
      → Has (DueFor worker now) rs
      → InList x (get_all worker registry)
      → InList x
          (told registry (map (λ r. ended_order now (into_order r)) (select (is_due now) rs)))
  unfolding told select into_order
  told-due registry now worker x [] h i = absurd h
  told-due registry now worker x (r ∷ rs) (inl due) i = rw due.1 (
      InList-left x (get_all r.worker registry) _
        (subst (λ w. InList x (get_all w registry)) (sym due.0) i))
  told-due registry now worker x (r ∷ rs) (inr h) i = elim (Bool-cases (is_due now r)) [
    | inl e ↦
        rw e (InList-right x (get_all r.worker registry) _ (told-due registry now worker x rs h i))
    | inr e ↦ rw e (told-due registry now worker x rs h i)
  ]

  flush-Distinct :
      (flushed : Text → Bool) (s : OrderStore W)
      → Distinct s.orders
      → Distinct (flush flushed s).orders
  unfolding step
  flush-Distinct flushed s d = step-Distinct (flushes flushed) s d

  -- One round of the expiry task, for a rig with a rental that is due once the buffered work is counted
  -- in. When the orders can be read every session of the rig is told to reconnect. And whichever of the
  -- round's statements fail, also if the rental could not be ended, no later read of the rig's rental
  -- finds one.
  pub expiry_round_lem :
      (flushed answers : Text → Bool) (now later : ℤ) (registry : Registry) (worker : Text)
      (s : OrderStore W)
      → Distinct s.orders
      → now ≤ℤ later
      → Has (DueFor worker now) (flush flushed s).orders
      → ((x : AnySession)
          → InList x (get_all worker registry)
          → InList x (expiry_round flushed true answers now registry s).0)
        × ((selected : Bool)
            → active_for_worker true worker later
                (expiry_round flushed selected answers now registry s).1
              ≡ none)
  unfolding expiry_round
  expiry_round_lem flushed answers now later registry worker s d le h =
      let s' = flush flushed s in
      let d' = flush-Distinct flushed s d in
      (
        λ x i.
            subst (λ os. InList x (told registry os)) (sym (take_expired_lem answers now s' d').0)
              (told-due registry now worker x s'.orders h i),
        λ selected. active_for_worker-take_expired selected answers now later worker s' d' le h,
      )
