-- ===== src/Api/Frozen.antt =====
-- src/api.rs: what the requests leave alone, and a rented rig, which is frozen.
use blitzpool_rental_proxy.Prelude.{
  Text, ◌≡◌, refl, ap, ◌∙◌, subst, ◌⊎◌, inl, inr, true, Option, none, some, List, [], ◌∷◌,
  Option-cases, Result, ok, err, ◌>>=◌, >>=-eq-ok, arith, Bool-cases, if◌then◌else◌, ◌==◌, text_eq,
}
use blitzpool_rental_proxy.Prelude.Dict.{lookup, lookup-insert}
use blitzpool_rental_proxy.Prelude.Float.{Float}
use blitzpool_rental_proxy.Session.PoolUrl.{normalize_pool_url}
use blitzpool_rental_proxy.Control.{AnySession}
use blitzpool_rental_proxy.Registry.{get_all}
use blitzpool_rental_proxy.Prelude.Int.{ℤ}
use blitzpool_rental_proxy.Orders.{Order, is_live}
use blitzpool_rental_proxy.Orders.Row.{OrderRow, into_order, active_word}
use blitzpool_rental_proxy.Orders.Live.{Answers, active_for_worker-Answers}
use blitzpool_rental_proxy.Orders.Store.{OrderStore, CreateOrderError, active_for_worker, create}
use blitzpool_rental_proxy.Orders.Created.{orders-create-err}
use blitzpool_rental_proxy.Sellers.{set_rig}
use blitzpool_rental_proxy.Api.Requests.{
  ApiError, already_rented, AppState, Outside, OrderReq, SellerReq, pool_url, rented_guard, rig_of,
  check_order, made_answer, place_order, create_order, order_target, fallback_target, set_seller,
  store_seller, delete_seller,
}
use blitzpool_rental_proxy.Api.Accepted.{pool_url-ok}

module _ {W : Type 0} ⦃f : Float W⦄ (out : Outside W) where
  rented_guard-err :
      (worker : Text) (s : AppState W) (order : Order W)
      → active_for_worker out.orders_read worker out.now_active s.orders ≡ some order
      → rented_guard out worker s ≡ err already_rented
  unfolding rented_guard
  rented_guard-err worker s order h = rw h

  -- Some row of the table is active, of this worker, and live.
  abbrev pub HasLive : Text → ℤ → List (OrderRow W) → Type 0
  HasLive worker now [] = ⊥
  HasLive worker now (r ∷ rs) =
      ((r.worker ≡ worker) × (r.status ≡ active_word) × (is_live (into_order r) now ≡ true))
      ⊎ HasLive worker now rs

  none_live :
      (worker : Text) (now : ℤ) (rs : List (OrderRow W))
      → HasLive worker now rs
      → Answers worker now rs none
      → ⊥
  none_live worker now [] h a = h
  none_live worker now (r ∷ rs) (inl live) a =
      let dead = a.0 live.0 live.1 in ground (arith, live.2, dead)
  none_live worker now (r ∷ rs) (inr h) a = none_live worker now rs h a.1

  live_found :
      (worker : Text) (now : ℤ) (s : OrderStore W)
      → HasLive worker now s.orders
      → (order : Order W) × (active_for_worker true worker now s ≡ some order)
  live_found worker now s h = elim (Option-cases (active_for_worker true worker now s)) [
    | inl e ↦ absurd (
        none_live worker now s.orders h
          (subst (Answers worker now s.orders) e (active_for_worker-Answers worker now s).0))
    | inr found ↦ found
  ]

  -- While the table has a live order of a rig's worker and the guard's read of it is answered, the rig
  -- is neither edited nor deleted: both requests are refused as already rented, and the state stays as
  -- it was.
  pub rented_rig-frozen :
      (worker : Text) (req : SellerReq W) (s : AppState W)
      → HasLive worker out.now_active s.orders.orders
      → out.orders_read ≡ true
      → (set_seller out worker req s ≡ (err already_rented, s))
        × (delete_seller out worker s ≡ (err already_rented, s))
  unfolding set_seller store_seller delete_seller
  rented_rig-frozen worker req s h up =
      let (order, found) = live_found worker out.now_active s.orders h in
      let read = ap (λ b. active_for_worker b worker out.now_active s.orders) up ∙ found in
      (
        rw (rented_guard-err worker s order read),
        rw (rented_guard-err worker s order read, delete_seller),
      )

  -- A request for an order that is refused changes no order, no rig and no session.
  pub create_order-err :
      (req : OrderReq W) (s : AppState W) (e : ApiError)
      → (create_order out req s).0 ≡ err e
      → ((create_order out req s).1.orders.orders ≡ s.orders.orders)
        × ((create_order out req s).1.rigs ≡ s.rigs)
        × ((create_order out req s).1.registry ≡ s.registry)
  unfolding create_order place_order
  create_order-err req s e h = of_checked (check_order out req s) h
    where
      of_made :
          (r : Result CreateOrderError (Order W))
          → made_answer (get_all req.worker s.registry) r ≡ err e
          → (z : CreateOrderError) × (r ≡ err z)
      of_made (ok order) k = cc
      of_made (err z) k = (z, refl)

      of_checked :
          (r : Result ApiError (Text × Option Text))
          → (place_order out req s r).0 ≡ err e
          → ((place_order out req s r).1.orders.orders ≡ s.orders.orders)
            × ((place_order out req s r).1.rigs ≡ s.rigs)
            × ((place_order out req s r).1.registry ≡ s.registry)
      of_checked (err z) k = (refl, refl, refl)
      of_checked (ok (url, fallback_url)) k =
          let (z, refused) =
            of_made
              (create out.orders_write out.now_stored req.worker (order_target req url)
                (fallback_target req fallback_url) req.until_ms req.price_per_th_day req.budget
                s.orders).0
              k in
          (
            orders-create-err out.now_stored req.worker (order_target req url)
                (fallback_target req fallback_url) req.until_ms req.price_per_th_day req.budget
                s.orders out.orders_write z refused,
            refl,
            refl,
          )

  -- A rig's entry that is accepted holds the request with a pool address that passes the rule; every
  -- other rig keeps its entry, and the orders stay as they were.
  set_seller-ok :
      (worker : Text) (req : SellerReq W) (s : AppState W) (sessions : List AnySession)
      → (set_seller out worker req s).0 ≡ ok sessions
      → (url : Text) × (normalize_pool_url req.url ≡ ok url)
        × ((other : Text)
            → lookup other (set_seller out worker req s).1.rigs
              ≡ (if worker == other then some (rig_of req url) else lookup other s.rigs))
        × ((set_seller out worker req s).1.orders ≡ s.orders)
  unfolding set_seller store_seller set_rig
  set_seller-ok worker req s sessions h =
      of_url (rented_guard out worker s >>= (λ _. pool_url req.url)) refl h
    where
      of_url :
          (r : Result ApiError Text)
          → (rented_guard out worker s >>= (λ _. pool_url req.url)) ≡ r
          → (store_seller out worker req s r).0 ≡ ok sessions
          → (url : Text) × (normalize_pool_url req.url ≡ ok url)
            × ((other : Text)
                → lookup other (store_seller out worker req s r).1.rigs
                  ≡ (if worker == other then some (rig_of req url) else lookup other s.rigs))
            × ((store_seller out worker req s r).1.orders ≡ s.orders)
      of_url (err e) u k = cc
      of_url (ok url) u k = elim (Bool-cases out.rigs_write) [
        | inl e ↦ rw e (
          url,
          pool_url-ok req.url url
              (>>=-eq-ok (rented_guard out worker s) (λ _. pool_url req.url) u).2,
          λ other. lookup-insert worker other (rig_of req url) s.rigs,
          refl,
        )
        | inr e ↦ absurd (ground (arith, e, k))
      ]
