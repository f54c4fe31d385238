-- ===== src/Api/Accepted.antt =====
-- src/api.rs, `create_order`: what an answer says of the request and of the state.
use mathlib.Core.Option
use blitzpool_rental_proxy.Prelude.{
  Text, ℕ, [], ◌∷◌, ◌>>=◌, ◌≡◌, ◌∙◌, ap, sym, subst, refl, ◌⊎◌, inl, inr, Bool, true, false, Option,
  none, some, List, Result, ok, err, >>=-eq-ok, arith, if◌then◌else◌,
}
use blitzpool_rental_proxy.Prelude.Strings.{trim}
use blitzpool_rental_proxy.Prelude.Int.{ℤ, pos, negsuc, ◌-ℤ◌, ◌*ℤ◌, ◌≤ℤ◌, ◌<ℤ◌}
use blitzpool_rental_proxy.Prelude.Float.{Float, nought}
use blitzpool_rental_proxy.Session.{UpstreamTarget}
use blitzpool_rental_proxy.Session.PoolUrl.{normalize_pool_url}
use blitzpool_rental_proxy.Control.{AnySession}
use blitzpool_rental_proxy.Registry.{get_all, aggregated_status}
use blitzpool_rental_proxy.Orders.{Order}
use blitzpool_rental_proxy.Orders.Store.{
  OrderStore, CreateOrderError, already_active, db, active_for_worker, create,
}
use blitzpool_rental_proxy.Sellers.{Rig, get_rig}
use blitzpool_rental_proxy.Api.Requests.{
  ApiError, AppState, Outside, OrderReq, saturating_mul_1000, pool_url, fallback_pool_url,
  order_target, fallback_target, is_blank, made_answer, place_order, offline, check_rig, check_end,
  rented_guard, is_delivering, hashrate_of, check_order, create_order,
}

pub pool_url-ok : (raw s : Text) → pool_url raw ≡ ok s → normalize_pool_url raw ≡ ok s
unfolding pool_url
pool_url-ok raw s h = ground (arith, h)

check_end-ok :
    (now until_ms : ℤ) → check_end now until_ms ≡ ok tt → (until_ms ≡ pos 0) ⊎ (now <ℤ until_ms)
unfolding check_end
check_end-ok now until_ms h = ground arith

-- What a rig's listing allows: it is rentable, and with a cap the end is set and not farther than the
-- cap, in seconds, from `now`.
abbrev pub Allows : {W : Type 0} → ℤ → ℤ → Option (Rig W) → Type 0
Allows now until_ms none = Unit {0}
Allows now until_ms (some rig) =
    (rig.rentable ≡ true)
    × ((rig.max_rental_secs ≤ℤ pos 0)
        ⊎ ((pos 0 <ℤ until_ms) × (until_ms -ℤ now ≤ℤ rig.max_rental_secs *ℤ pos 1000)))

saturating_mul_1000-le : (n : ℕ) (a : ℤ) → a ≤ℤ saturating_mul_1000 (pos n) → a ≤ℤ pos n *ℤ pos 1000
unfolding saturating_mul_1000 ◌*ℤ◌
saturating_mul_1000-le n a h = ground arith

check_rig-ok :
    {W : Type 0} (now until_ms : ℤ) (rig : Option (Rig W))
    → check_rig now until_ms rig ≡ ok tt
    → Allows now until_ms rig
unfolding check_rig
check_rig-ok now until_ms none h = tt
check_rig-ok now until_ms (some rig) h =
    ground (arith, capped rig.max_rental_secs (until_ms -ℤ now), h)
  where
    capped : (cap a : ℤ) → pos 0 <ℤ cap → a ≤ℤ saturating_mul_1000 cap → a ≤ℤ cap *ℤ pos 1000
    capped (pos n) a k l = saturating_mul_1000-le n a l
    capped (negsuc n) a k l = ground arith

fallback-ok :
    (raw : Text) (v : Option Text)
    → fallback_pool_url raw ≡ ok v
    → ((trim raw ≡ []) × (v ≡ none)) ⊎ ((s : Text) × (normalize_pool_url raw ≡ ok s) × (v ≡ some s))
unfolding fallback_pool_url
fallback-ok raw v h = of_text (trim raw) h
  where
    of_text :
        (t : Text)
        → (if is_blank t then ok none else (pool_url raw >>= (λ s. ok (some s)))) ≡ ok v
        → ((t ≡ []) × (v ≡ none)) ⊎ ((s : Text) × (normalize_pool_url raw ≡ ok s) × (v ≡ some s))
    of_text [] k = inl (refl, cc k)
    of_text (c ∷ t) k =
        let (s, p, q) = >>=-eq-ok (pool_url raw) (λ s. ok (some s)) k in
        inr (s, pool_url-ok raw s p, cc q)

-- What the guards leave: both addresses pass the rule for pool addresses, a set end is in the future,
-- the rig's listing allows the rental, no order is live for the rig, and the rig delivers.
pub record Admitted {W : Type 0} ⦃f : Float W⦄ (out : Outside W) (req : OrderReq W) (s : AppState W)
    (url : Text) (fallback_url : Option Text) : Type 0 where
  pub url_passes : normalize_pool_url req.url ≡ ok url
  pub fallback_passes :
      ((trim req.fallback_url ≡ []) × (fallback_url ≡ none))
      ⊎ ((v : Text) × (normalize_pool_url req.fallback_url ≡ ok v) × (fallback_url ≡ some v))
  pub ends_later : (req.until_ms ≡ pos 0) ⊎ (out.now_end <ℤ req.until_ms)
  pub allowed : Allows out.now_duration req.until_ms (get_rig out.rigs_read req.worker s.rigs)
  pub free : active_for_worker out.orders_read req.worker out.now_active s.orders ≡ none
  pub delivers :
      f.lt nought (hashrate_of (aggregated_status out.status req.worker s.registry)) ≡ true

Result-cases :
    {A : Type 0} (r : Result ApiError A) → ((e : ApiError) × (r ≡ err e)) ⊎ ((a : A) × (r ≡ ok a))
Result-cases (ok a) = inr (a, refl)
Result-cases (err e) = inl (e, refl)

checked : {A B : Type 0} → Bool → A → B → Result ApiError (A × B)
checked t x y = if t then ok (x, y) else err offline

gather :
    {A B : Type 0} (a : Result ApiError A) (b : Result ApiError B)
    (c d e : Result ApiError (Unit {0})) (t : Bool) (u : A) (v : B)
    → (a >>= (λ x. b >>= (λ y. c >>= (λ _. d >>= (λ _. e >>= (λ _. checked t x y)))))) ≡ ok (u, v)
    → (a ≡ ok u) × (b ≡ ok v) × (c ≡ ok tt) × (d ≡ ok tt) × (e ≡ ok tt) × (t ≡ true)
unfolding checked
gather (ok x) (ok y) (ok _) (ok _) (ok _) true u v h = ground (arith, h)
gather (ok x) (ok y) (ok _) (ok _) (ok _) false u v h = cc
gather (ok x) (ok y) (ok _) (ok _) (err z) t u v h = cc
gather (ok x) (ok y) (ok _) (err z) e t u v h = cc
gather (ok x) (ok y) (err z) d e t u v h = cc
gather (ok x) (err z) c d e t u v h = cc
gather (err z) b c d e t u v h = cc

module _ {W : Type 0} ⦃f : Float W⦄ (out : Outside W) (req : OrderReq W) (s : AppState W) where
  rented_guard-ok :
      (worker : Text)
      → rented_guard out worker s ≡ ok tt
      → active_for_worker out.orders_read worker out.now_active s.orders ≡ none
  unfolding rented_guard
  rented_guard-ok worker h = ground (arith, h)

  check_order-ok :
      (url : Text) (fallback_url : Option Text)
      → check_order out req s ≡ ok (url, fallback_url)
      → Admitted out req s url fallback_url
  unfolding check_order is_delivering checked
  check_order-ok url fallback_url h =
      let (u_ok, v_ok, e_ok, r_ok, g_ok, d) =
        gather (pool_url req.url) (fallback_pool_url req.fallback_url)
          (check_end out.now_end req.until_ms)
          (check_rig out.now_duration req.until_ms (get_rig out.rigs_read req.worker s.rigs))
          (rented_guard out req.worker s)
          (f.lt nought (hashrate_of (aggregated_status out.status req.worker s.registry))) url
          fallback_url h in
      record {
        url_passes = pool_url-ok req.url url u_ok;
        fallback_passes = fallback-ok req.fallback_url fallback_url v_ok;
        ends_later = check_end-ok out.now_end req.until_ms e_ok;
        allowed =
            check_rig-ok out.now_duration req.until_ms (get_rig out.rigs_read req.worker s.rigs)
              r_ok;
        free = rented_guard-ok req.worker g_ok;
        delivers = d;
      }

  create-fields :
      (up : Bool) (now : ℤ) (worker : Text) (target : UpstreamTarget)
      (fallback : Option UpstreamTarget) (until_ms : ℤ) (price budget : W) (o : OrderStore W)
      (order : Order W)
      → (create up now worker target fallback until_ms price budget o).0 ≡ ok order
      → (order.target ≡ target)
        × (order.fallback ≡ fallback)
        × (order.worker ≡ worker)
        × (order.until_ms ≡ until_ms)
        × (order.price_per_th_day ≡ price)
        × (order.budget ≡ budget)
  unfolding create
  create-fields up now worker target fallback until_ms price budget o order h = ground (arith, h)

  made_answer-ok :
      (all : List AnySession) {sessions : List AnySession} (o : Order W) {order : Order W}
      → made_answer all (ok o) ≡ ok (order, sessions)
      → (o ≡ order) × (sessions ≡ all)
  made_answer-ok all o k = ground (arith, k)

  fallback_target-url :
      (fallback_url : Option Text)
      → Option.map (λ t. t.url) (fallback_target req fallback_url) ≡ fallback_url
  fallback_target-url none = refl
  fallback_target-url (some url) = refl

  -- An order that is accepted passed every guard at the two addresses it stores, and is for the
  -- request's rig, with the request's end, price and budget; the sessions that are told to reconnect
  -- are all that the rig has.
  pub create_order-ok :
      (order : Order W) (sessions : List AnySession)
      → (create_order out req s).0 ≡ ok (order, sessions)
      → Admitted out req s order.target.url (Option.map (λ t. t.url) order.fallback)
        × (order.worker ≡ req.worker)
        × (order.until_ms ≡ req.until_ms)
        × (order.price_per_th_day ≡ req.price_per_th_day)
        × (order.budget ≡ req.budget)
        × (sessions ≡ get_all req.worker s.registry)
  unfolding create_order place_order
  create_order-ok order sessions h = of_checked (check_order out req s) refl h
    where
      of_made :
          (url : Text) (fallback_url : Option Text) (r : Result CreateOrderError (Order W))
          → (create out.orders_write out.now_stored req.worker
              (order_target req url)
              (fallback_target req fallback_url)
              req.until_ms
              req.price_per_th_day
              req.budget
              s.orders).0
            ≡ r
          → made_answer (get_all req.worker s.registry) r ≡ ok (order, sessions)
          → Admitted out req s url fallback_url
          → Admitted out req s order.target.url (Option.map (λ t. t.url) order.fallback)
            × (order.worker ≡ req.worker)
            × (order.until_ms ≡ req.until_ms)
            × (order.price_per_th_day ≡ req.price_per_th_day)
            × (order.budget ≡ req.budget)
            × (sessions ≡ get_all req.worker s.registry)
      of_made url fallback_url (ok o) e k a =
          let (same, all) = made_answer-ok (get_all req.worker s.registry) o k in
          let (t, fb, w, u, p, b) =
            create-fields out.orders_write out.now_stored req.worker (order_target req url)
              (fallback_target req fallback_url) req.until_ms req.price_per_th_day req.budget
              s.orders order (e ∙ ap ok same) in
          (
            subst (λ v. Admitted out req s order.target.url v)
                (sym (fallback_target-url fallback_url) ∙ ap (Option.map (λ t. t.url)) (sym fb))
                (subst (λ v. Admitted out req s v fallback_url) (ap (λ x. x.url) (sym t)) a),
            w,
            u,
            p,
            b,
            all,
          )
      of_made url fallback_url (err already_active) e k a = cc
      of_made url fallback_url (err db) e k a = cc

      of_checked :
          (r : Result ApiError (Text × Option Text))
          → check_order out req s ≡ r
          → (place_order out req s r).0 ≡ ok (order, sessions)
          → Admitted out req s order.target.url (Option.map (λ t. t.url) order.fallback)
            × (order.worker ≡ req.worker)
            × (order.until_ms ≡ req.until_ms)
            × (order.price_per_th_day ≡ req.price_per_th_day)
            × (order.budget ≡ req.budget)
            × (sessions ≡ get_all req.worker s.registry)
      of_checked (err e) c k = cc
      of_checked (ok (url, fallback_url)) c k =
          of_made url fallback_url
            (create out.orders_write out.now_stored req.worker (order_target req url)
              (fallback_target req fallback_url) req.until_ms req.price_per_th_day req.budget
              s.orders).0
            refl k (check_order-ok url fallback_url c)
