-- ===== src/Api/Requests.antt =====
-- src/api.rs: the handlers of rigs and orders, and their guards. Each result holds the sessions that
-- are told to reconnect. The axum framework and the JSON of the answers are not modelled.
use blitzpool_rental_proxy.Prelude.{
  Text, ◌*◌, ◌-◌, ◌^◌, Bool, true, false, not, ◌&&◌, Option, none, some, List, [], ◌∷◌,
  if◌then◌else◌, leb, is_some, Result, ok, err, ◌>>=◌,
}
use blitzpool_rental_proxy.Prelude.Strings.{trim}
use blitzpool_rental_proxy.Prelude.Dict.{Dict}
use blitzpool_rental_proxy.Prelude.Int.{ℤ, pos, negsuc, ◌-ℤ◌, eqb_ℤ, ltb_ℤ, leb_ℤ}
use blitzpool_rental_proxy.Prelude.Float.{Float, nought}
use blitzpool_rental_proxy.Session.{UpstreamTarget}
use blitzpool_rental_proxy.Session.PoolUrl.{UrlError, normalize_pool_url}
use blitzpool_rental_proxy.Control.{AnySession, SessionStatus, idle_name, rented_name}
use blitzpool_rental_proxy.Registry.{Registry, get_all, aggregated_status}
use blitzpool_rental_proxy.Orders.{Order}
use blitzpool_rental_proxy.Orders.Store.{
  OrderStore, CreateOrderError, already_active, db, create, cancel, active_for_worker, select,
}
use blitzpool_rental_proxy.Sellers.{Rig, get_rig, set_rig, set_rentable, remove_rig}

pub data ApiError : Type 0 where
  -- 400
  bad_url : UrlError → ApiError
  -- 409
  already_rented : ApiError
  end_in_past : ApiError
  not_listed : ApiError
  needs_end : ApiError
  too_long : ApiError
  offline : ApiError
  -- 404
  not_found : ApiError
  -- 500
  internal : ApiError

-- What the handlers share.
pub record AppState (W : Type 0) : Type 0 where
  pub orders : OrderStore W
  pub rigs : Dict Text (Rig W)
  pub registry : Registry

-- What a request meets outside: each statement is answered or not, each reading of the clock, and
-- the status of each session.
pub record Outside (W : Type 0) : Type 0 where
  pub rigs_read : Bool
  pub rigs_write : Bool
  pub orders_read : Bool
  pub orders_write : Bool
  pub now_end : ℤ
  pub now_duration : ℤ
  pub now_active : ℤ
  pub now_stored : ℤ
  pub status : AnySession → SessionStatus W

pub record SellerReq (W : Type 0) : Type 0 where
  pub url : Text
  pub user : Text
  pub pass : Text
  pub authority : Option Text
  pub advertised_ths : W
  pub price_per_th_day : W
  pub price_min_per_th_day : W
  pub price_max_per_th_day : W
  pub payout_address : Option Text
  pub rentable : Bool
  pub max_rental_secs : ℤ

pub record OrderReq (W : Type 0) : Type 0 where
  pub worker : Text
  pub url : Text
  pub user : Text
  pub pass : Text
  pub authority : Option Text
  pub fallback_url : Text
  pub fallback_user : Text
  pub fallback_pass : Text
  pub fallback_authority : Option Text
  pub until_ms : ℤ
  pub price_per_th_day : W
  pub budget : W

-- i64::max(0)
abbrev pub max_zero : ℤ → ℤ
max_zero (pos n) = pos n
max_zero (negsuc n) = pos 0

-- saturating_mul(1000) of an `i64` that is not negative
unfoldable pub saturating_mul_1000 : ℤ → ℤ
saturating_mul_1000 (pos n) =
    if leb (n * 1000) (2 ^ 63 - 1) then pos (n * 1000) else pos (2 ^ 63 - 1)
saturating_mul_1000 (negsuc n) = negsuc n

unfoldable pub pool_url : Text → Result ApiError Text
pool_url raw = elim (normalize_pool_url raw) [ ok s ↦ ok s | err e ↦ err (bad_url e) ]

abbrev pub is_blank : Text → Bool
is_blank [] = true
is_blank (c ∷ s) = false

unfoldable pub fallback_pool_url : Text → Result ApiError (Option Text)
fallback_pool_url raw =
    if is_blank (trim raw) then ok none else (pool_url raw >>= (λ s. ok (some s)))

-- A bounded rental ends in the future.
unfoldable pub check_end : ℤ → ℤ → Result ApiError (Unit {0})
check_end now until_ms =
    if not (eqb_ℤ until_ms (pos 0)) && leb_ℤ until_ms now then err end_in_past else ok tt

module _ {W : Type 0} where
  abbrev pub fallback_target : OrderReq W → Option Text → Option UpstreamTarget
  fallback_target req none = none
  fallback_target req (some url) = some (record {
    url = url;
    user = req.fallback_user;
    password = req.fallback_pass;
    authority_pubkey = req.fallback_authority;
  })

  abbrev pub order_target : OrderReq W → Text → UpstreamTarget
  order_target req url = record {
    url = url;
    user = req.user;
    password = req.pass;
    authority_pubkey = req.authority;
  }

  -- The guards that the rig's own listing sets.
  unfoldable pub check_rig : ℤ → ℤ → Option (Rig W) → Result ApiError (Unit {0})
  check_rig now until_ms none = ok tt
  check_rig now until_ms (some rig) =
      if not rig.rentable
      then err not_listed
      else if ltb_ℤ (pos 0) rig.max_rental_secs
      then if leb_ℤ until_ms (pos 0)
        then err needs_end
        else if ltb_ℤ (saturating_mul_1000 rig.max_rental_secs) (until_ms -ℤ now)
        then err too_long
        else ok tt
      else ok tt

  unfoldable pub set_rentable_request :
      Outside W → Text → Bool → AppState W → Result ApiError Bool × AppState W
  unfolding set_rentable
  set_rentable_request out worker flag s = elim (set_rentable out.rigs_write worker flag s.rigs) [
    | none ↦ (err internal, s)
    | some (updated, rigs) ↦ (if updated then ok flag else err not_found, record s { rigs = rigs })
  ]

  unfoldable pub cancel_order :
      Outside W → Text → AppState W → Result ApiError (List AnySession) × AppState W
  cancel_order out id s =
      let (cancelled, orders) =
        cancel out.orders_read out.orders_write out.now_stored id s.orders in
      (
        elim cancelled [ none ↦ err not_found | some order ↦ ok (get_all order.worker s.registry) ],
        record s { orders = orders },
      )

module _ {W : Type 0} ⦃f : Float W⦄ where
  -- A rig with a live rental is frozen.
  unfoldable pub rented_guard : Outside W → Text → AppState W → Result ApiError (Unit {0})
  rented_guard out worker s =
      if is_some (active_for_worker out.orders_read worker out.now_active s.orders)
      then err already_rented
      else ok tt

  unfoldable pub is_delivering : W → Bool
  is_delivering hashrate = f.lt nought hashrate

  abbrev pub hashrate_of : Option (SessionStatus W) → W
  hashrate_of none = nought
  hashrate_of (some p) = p.hashrate_hs

  -- The guards of `create_order`, in the order of the source: the two addresses, or a refusal.
  unfoldable pub check_order :
      Outside W → OrderReq W → AppState W → Result ApiError (Text × Option Text)
  check_order out req s = pool_url req.url >>= (λ url.
      fallback_pool_url req.fallback_url >>= (λ fallback_url.
        check_end out.now_end req.until_ms >>= (λ _.
          check_rig out.now_duration req.until_ms (get_rig out.rigs_read req.worker s.rigs)
          >>= (λ _. rented_guard out req.worker s >>= (λ _.
              if is_delivering (hashrate_of (aggregated_status out.status req.worker s.registry))
              then ok (url, fallback_url)
              else err offline)))))

  abbrev pub made_answer :
      List AnySession
      → Result CreateOrderError (Order W)
      → Result ApiError (Order W × List AnySession)
  made_answer sessions (ok order) = ok (order, sessions)
  made_answer sessions (err already_active) = err already_rented
  made_answer sessions (err db) = err internal

  -- The rest of `create_order`, behind the guards.
  unfoldable pub place_order :
      Outside W
      → OrderReq W
      → AppState W
      → Result ApiError (Text × Option Text)
      → Result ApiError (Order W × List AnySession) × AppState W
  place_order out req s (err e) = (err e, s)
  place_order out req s (ok (url, fallback_url)) =
      let (made, orders) =
        create out.orders_write out.now_stored req.worker (order_target req url)
          (fallback_target req fallback_url) req.until_ms req.price_per_th_day req.budget
          s.orders in
      (made_answer (get_all req.worker s.registry) made, record s { orders = orders })

  -- The order that was made, and the sessions that reconnect.
  unfoldable pub create_order :
      Outside W → OrderReq W → AppState W → Result ApiError (Order W × List AnySession) × AppState W
  unfolding place_order
  create_order out req s = place_order out req s (check_order out req s)

  abbrev pub is_idle : SessionStatus W → Bool
  is_idle p = elim p.routing [ idle_name ↦ true | rented_name ↦ false ]

  abbrev pub rig_of : SellerReq W → Text → Rig W
  rig_of req url = record {
    default_pool = record {
      url = url;
      user = req.user;
      password = req.pass;
      authority_pubkey = req.authority;
    };
    advertised_ths = req.advertised_ths;
    price_per_th_day = req.price_per_th_day;
    price_min_per_th_day = req.price_min_per_th_day;
    price_max_per_th_day = req.price_max_per_th_day;
    payout_address = req.payout_address;
    rentable = req.rentable;
    max_rental_secs = max_zero req.max_rental_secs;
  }

  -- The rest of `set_seller`, behind the guards: the idle sessions of the rig reconnect.
  unfoldable pub store_seller :
      Outside W
      → Text
      → SellerReq W
      → AppState W
      → Result ApiError Text
      → Result ApiError (List AnySession) × AppState W
  unfolding set_rig
  store_seller out worker req s (err e) = (err e, s)
  store_seller out worker req s (ok url) =
      elim (set_rig out.rigs_write worker (rig_of req url) s.rigs) [
        | none ↦ (err internal, s)
        | some rigs ↦ (
          ok (select (λ a. is_idle (out.status a)) (get_all worker s.registry)),
          record s { rigs = rigs },
        )
      ]

  unfoldable pub set_seller :
      Outside W → Text → SellerReq W → AppState W → Result ApiError (List AnySession) × AppState W
  unfolding store_seller
  set_seller out worker req s =
      store_seller out worker req s (rented_guard out worker s >>= (λ _. pool_url req.url))

  unfoldable pub delete_seller : Outside W → Text → AppState W → Result ApiError Bool × AppState W
  delete_seller out worker s = elim (rented_guard out worker s) [
    | err e ↦ (err e, s)
    | ok _ ↦ elim (remove_rig out.rigs_write worker s.rigs) [
      | none ↦ (err internal, s)
      | some (removed, rigs) ↦ (ok removed, record s { rigs = rigs })
    ]
  ]
