-- ===== src/Examples/Requests.antt =====
-- Requests of the API, lines of an SV1 session and a rig's history, under their theorems.
use blitzpool_rental_proxy.Prelude.{
  Text, ℕ, ◌+◌, ◌≡◌, refl, true, false, inl, Option, none, some, List, [], ◌∷◌, err, arith, text_eq,
  text_beq,
}
use blitzpool_rental_proxy.Prelude.Strings.{codes, trim, contains_char, parse_u16}
use blitzpool_rental_proxy.Prelude.Dict.{lookup}
use blitzpool_rental_proxy.Prelude.Int.{◌-ℤ◌, ℤ, pos}
use blitzpool_rental_proxy.Session.{rented}
use blitzpool_rental_proxy.Session.PoolUrl.{normalize_pool_url}
use blitzpool_rental_proxy.Control.{idle_name}
use blitzpool_rental_proxy.Registry.{aggregated_status, get_all}
use blitzpool_rental_proxy.Orders.{funding_exhausted, Order, is_live}
use blitzpool_rental_proxy.Orders.Row.{into_order, from_db}
use blitzpool_rental_proxy.Orders.Store.{order_id, create, active_for_worker, find, select}
use blitzpool_rental_proxy.Sellers.{get_rig, Rig}
use blitzpool_rental_proxy.Api.Requests.{
  pool_url, rented_guard, check_end, fallback_pool_url, pool_url, check_order, is_delivering,
  rented_guard, saturating_mul_1000, check_rig, check_end, fallback_pool_url, pool_url, check_order,
  AppState, Outside, SellerReq, OrderReq, already_rented, end_in_past, set_seller, delete_seller,
  create_order,
}
use blitzpool_rental_proxy.Api.Accepted.{Admitted, create_order-ok}
use blitzpool_rental_proxy.Api.Frozen.{rented_rig-frozen, create_order-err}
use blitzpool_rental_proxy.Relay.{RpcMessage, Inner, on_upstream_msg}
use blitzpool_rental_proxy.Relay.Shares.{on_upstream_msg-credit}
use blitzpool_rental_proxy.Relay.Bounds.{
  Event, upstream_line, miner_line, switched, sv2_accepted, run, claimed, Accounted, run-Accounted,
}
use blitzpool_rental_proxy.Examples.Data.{whole, pool, store, live_sessions, status_of}

abbrev rig : Rig ℕ
rig = record {
  default_pool = pool;
  advertised_ths = 220;
  price_per_th_day = 1;
  price_min_per_th_day = 1;
  price_max_per_th_day = 1;
  payout_address = none;
  rentable = true;
  max_rental_secs = pos 3600;
}

abbrev state : AppState ℕ
state = record {
  orders = store;
  rigs = (codes "w", rig) ∷ (codes "v", rig) ∷ [];
  registry = live_sessions;
}

abbrev outside : Outside ℕ
outside = record {
  rigs_read = true;
  rigs_write = true;
  orders_read = true;
  orders_write = true;
  now_end = pos 10;
  now_duration = pos 10;
  now_active = pos 10;
  now_stored = pos 10;
  status = λ a. status_of idle_name;
}

abbrev seller_req : SellerReq ℕ
seller_req = record {
  url = codes "tcp://pool:80";
  user = codes "acct";
  pass = codes "x";
  authority = none;
  advertised_ths = 220;
  price_per_th_day = 1;
  price_min_per_th_day = 1;
  price_max_per_th_day = 1;
  payout_address = none;
  rentable = true;
  max_rental_secs = pos 0;
}

abbrev order_req : Text → ℤ → OrderReq ℕ
order_req worker until_ms = record {
  worker = worker;
  url = codes "tcp://pool:80";
  user = codes "buyer";
  pass = codes "x";
  authority = none;
  fallback_url = codes " ";
  fallback_user = [];
  fallback_pass = [];
  fallback_authority = none;
  until_ms = until_ms;
  price_per_th_day = 1;
  budget = 0;
}

-- The order that the request for rig `v` makes.
abbrev made : Order ℕ
made = record {
  id = order_id (pos 10) 7;
  worker = codes "v";
  target = record {
    url = codes "pool:80";
    user = codes "buyer";
    password = codes "x";
    authority_pubkey = none;
  };
  fallback = none;
  created_ms = pos 10;
  until_ms = pos 1000;
  status = blitzpool_rental_proxy.Orders.active;
  ended_ms = pos 0;
  delivered_work = 0;
  accepted_shares = 0;
  submitted_shares = 0;
  price_per_th_day = 1;
  budget = 0;
}

create_order-ok_example :
    Admitted outside (order_req (codes "v") (pos 1000)) state (codes "pool:80") none
    × (made.worker ≡ codes "v")
    × (made.until_ms ≡ pos 1000)
    × (made.price_per_th_day ≡ 1)
    × (made.budget ≡ 0)
    × (get_all (codes "v") live_sessions ≡ get_all (codes "v") live_sessions)
unfolding create_order create active_for_worker find select text_beq trim contains_char parse_u16
    into_order lookup check_order pool_url normalize_pool_url fallback_pool_url check_end check_rig
    get_rig saturating_mul_1000 ◌-ℤ◌ rented_guard is_delivering aggregated_status order_id
create_order-ok_example =
    create_order-ok outside (order_req (codes "v") (pos 1000)) state made
      (get_all (codes "v") live_sessions) refl

create_order-err_example :
    ((create_order outside (order_req (codes "v") (pos 5)) state).1.orders.orders ≡ store.orders)
    × ((create_order outside (order_req (codes "v") (pos 5)) state).1.rigs ≡ state.rigs)
    × ((create_order outside (order_req (codes "v") (pos 5)) state).1.registry ≡ live_sessions)
unfolding create_order trim contains_char parse_u16 text_beq check_order pool_url normalize_pool_url
    fallback_pool_url check_end
create_order-err_example =
    create_order-err outside (order_req (codes "v") (pos 5)) state end_in_past refl

rented_rig-frozen_example :
    (set_seller outside (codes "w") seller_req state ≡ (err already_rented, state))
    × (delete_seller outside (codes "w") state ≡ (err already_rented, state))
unfolding into_order is_live text_beq from_db funding_exhausted
rented_rig-frozen_example =
    rented_rig-frozen outside (codes "w") seller_req state (inl (refl, refl, refl)) refl

abbrev message : Option Text → RpcMessage ℕ
message method = record {
  id = codes "4";
  method = method;
  first_number = none;
  first_param = some (codes "old");
  result_true = true;
}

abbrev session : Inner ℕ
session = record {
  generation = 1;
  target = pool;
  generation_counter = 1;
  routing = rented (codes "a");
  current_difficulty = 8;
  pending = (codes "4", (1, 8)) ∷ [];
  extranonce_capable = true;
  configure = none;
  hashrate = record { window = 600; samples = [] };
  delivered_work = 0;
  accepted_shares = 0;
  submitted_shares = 1;
  accept_low_logged = false;
  label = codes "v.rig";
  translating = false;
  extranonce1 = [];
  extranonce2_size = 4;
  pending_prelude = [];
  subscribed = true;
}

on_upstream_msg-credit_example :
    (session.generation ≡ session.generation)
    × ((message none).method ≡ none)
    × ((message none).result_true ≡ true)
    × (lookup (codes "4") session.pending ≡ some (1, 8))
    × (session.routing ≡ rented (codes "a"))
    × (session.accepted_shares + 1 ≡ 1)
    × (lookup (codes "4") (on_upstream_msg 5 1 (message none) session).2.pending ≡ none)
unfolding on_upstream_msg text_beq lookup
on_upstream_msg-credit_example =
    on_upstream_msg-credit 5 1 (message none) session (codes "a") 8 1 refl

abbrev events : List (Event ℕ)
events =
    miner_line (message (some (codes "mining.submit")))
    ∷ upstream_line 5 1 (message none)
    ∷ upstream_line 6 1 (message none)
    ∷ switched pool (rented (codes "a")) none
    ∷ sv2_accepted 7 1 3
    ∷ []

run-Accounted_example : Accounted (0 + claimed events) (run events session)
run-Accounted_example = run-Accounted 0 events session (omega arith)
