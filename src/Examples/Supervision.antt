-- ===== src/Examples/Supervision.antt =====
-- An SV1 session that is rented, and a miner that connects, under the theorems on switches and on the
-- handshake.
use blitzpool_rental_proxy.Prelude.{
  text_beq, text_beq, ℕ, ◌≡◌, refl, ◌∙◌, ap, true, false, Option, none, some, List, [], ◌∷◌, ◌++◌,
  arith,
}
use blitzpool_rental_proxy.Prelude.Strings.{codes}
use blitzpool_rental_proxy.Prelude.Int.{pos}
use blitzpool_rental_proxy.Session.{idle, rented}
use blitzpool_rental_proxy.Orders.{Order, active}
use blitzpool_rental_proxy.Orders.Store.{get}
use blitzpool_rental_proxy.Relay.{RawUpstream, raw_sv1}
use blitzpool_rental_proxy.Sv2.{extended}
use blitzpool_rental_proxy.Sv2.Translated.{unreachable, speaks_sv2}
use blitzpool_rental_proxy.Sv2.Miner.{build_rig}
use blitzpool_rental_proxy.Sv2.Miner.Built.{BuiltOn, build_rig-BuiltOn}
use blitzpool_rental_proxy.Supervise.{
  Round, Lawful, attempt, supervise_upstream, reconcile_routing, retry,
}
use blitzpool_rental_proxy.Supervise.Sessions.{Session, sv1_session, sv2_session}
use blitzpool_rental_proxy.Supervise.Laws.{
  sv1_session-Lawful, sv2_session-Lawful, swap_upstream-connected,
}
use blitzpool_rental_proxy.Supervise.Recovery.{
  Works, Ends, supervise_upstream-Ends, supervise_upstream-routing,
}
use blitzpool_rental_proxy.Supervise.Failover.{switch_to_order-first}
use blitzpool_rental_proxy.Supervise.Align.{
  AlignedOrRetried, Justified, reconcile_routing-AlignedOrRetried, retry-Justified,
}
use blitzpool_rental_proxy.Handshake.{
  Authorized, on_pool, authorize, handshake_target, open_session,
}
use blitzpool_rental_proxy.Handshake.Switching.{Serves}
use blitzpool_rental_proxy.Handshake.Return.{authorize-return}
use blitzpool_rental_proxy.Examples.Data.{whole, pool, store, threshold}
use blitzpool_rental_proxy.Examples.Rig.{window, no_codec}

abbrev link : RawUpstream ℕ
link = raw_sv1 (codes "ab") 4 []

-- The session of rental `a`.
abbrev rented_session : Session ℕ
rented_session = record {
  inner = record {
    generation = 1;
    target = pool;
    generation_counter = 1;
    routing = rented (codes "a");
    current_difficulty = 1;
    pending = [];
    extranonce_capable = true;
    configure = none;
    hashrate = window;
    delivered_work = 0;
    accepted_shares = 0;
    submitted_shares = 0;
    accept_low_logged = false;
    label = codes "w";
    translating = false;
    extranonce1 = codes "ab";
    extranonce2_size = 4;
    pending_prelude = [];
    subscribed = true;
  };
  default_target = pool;
  reconnect = false;
}

-- The rental did not reach the session: it still serves nobody.
abbrev idle_session : Session ℕ
idle_session = record rented_session { inner = record rented_session.inner { routing = idle } }

abbrev round : Option (RawUpstream ℕ) → Round ℕ (Option (RawUpstream ℕ)) (Session ℕ)
round connection = record {
  between = λ s. s;
  alive = true;
  up = true;
  store = store;
  now = pos 5;
  first = connection;
  second = none;
}

-- The pool comes back in the third round.
abbrev outage : List (Round ℕ (Option (RawUpstream ℕ)) (Session ℕ))
outage = round none ∷ round none ∷ []

abbrev order_a : Order ℕ
order_a = record {
  id = codes "a";
  worker = codes "w";
  target = pool;
  fallback = none;
  created_ms = pos 1;
  until_ms = pos 100;
  status = active;
  ended_ms = pos 0;
  delivered_work = 0;
  accepted_shares = 5;
  submitted_shares = 6;
  price_per_th_day = 1;
  budget = 0;
}

get_a : get true (codes "a") store ≡ some order_a
unfolding get text_beq
get_a = refl

round-Works : Works sv1_session sv1_session-Lawful 1 (rented (codes "a")) (round (some link))
unfolding attempt
round-Works s e k =
    ap (λ x. (attempt sv1_session x (round (some link)) s).0) k
    ∙ switch_to_order-first sv1_session (round (some link)) (codes "a") order_a s get_a
        (swap_upstream-connected pool (rented (codes "a")) link s)

supervise_upstream-Ends_example :
    Ends 2 (supervise_upstream sv1_session 1 (outage ++ round (some link) ∷ []) rented_session)
supervise_upstream-Ends_example =
    supervise_upstream-Ends sv1_session sv1_session-Lawful 1 outage (round (some link)) []
      rented_session round-Works ((λ s. refl), ((λ s. refl), ((λ s. refl), tt)))

supervise_upstream-routing_example :
    (supervise_upstream sv1_session 1 outage rented_session).2.inner.routing ≡ rented (codes "a")
supervise_upstream-routing_example =
    supervise_upstream-routing sv1_session sv1_session-Lawful 1 outage rented_session
      ((λ s. refl), ((λ s. refl), tt))

reconcile_routing-AlignedOrRetried_example :
    AlignedOrRetried sv1_session
      (codes "a")
      idle_session
      (reconcile_routing sv1_session (some order_a) (round none) idle_session)
reconcile_routing-AlignedOrRetried_example =
    reconcile_routing-AlignedOrRetried sv1_session sv1_session-Lawful order_a (round none)
      idle_session

retry-Justified_example :
    Justified sv1_session sv1_session-Lawful
      (codes "w")
      (outage ++ round (some link) ∷ [])
      (retry sv1_session (codes "w") (outage ++ round (some link) ∷ []) 500 idle_session)
retry-Justified_example =
    retry-Justified sv1_session sv1_session-Lawful (codes "w") (outage ++ round (some link) ∷ [])
      500 idle_session

sv2_session-Lawful_example : Lawful (sv2_session threshold no_codec)
sv2_session-Lawful_example = sv2_session-Lawful threshold no_codec

abbrev visitor : Session ℕ
visitor = open_session (codes "10.0.0.1:5000") (record pool { url = codes "boot:3333" }) link

-- The first visit, and a minute later the second.
abbrev first_visit : Authorized ℕ
first_visit =
    authorize 0 (codes "10.0.0.1") (codes "w") 1 (some order_a) none [] (some link) visitor [] []

authorize-return_example :
    let shaken = handshake_target 60_000 (codes "10.0.0.1") none first_visit.hints in
    let second =
      authorize 60_001
        (codes "10.0.0.1")
        (codes "w")
        2
        (some order_a)
        none
        []
        none
        (open_session (codes "10.0.0.1:5001") pool link)
        shaken.1
        [] in
    (shaken.0 ≡ some pool)
    × (second.outcome ≡ on_pool)
    × Serves pool (rented (codes "a")) second.session
unfolding open_session authorize text_beq
authorize-return_example =
    authorize-return 0 60_000 60_001 (codes "10.0.0.1") (codes "w") 1 2 (some order_a) none none
      pool [] [] (some link) none visitor [] [] [] (codes "10.0.0.1:5001") link refl refl refl
      (omega arith)

build_rig-BuiltOn_example : BuiltOn (some pool) (rented (codes "a")) none (extended 1 10 [] 4) (
    build_rig threshold true unreachable
      (speaks_sv2 [])
      (some (record order_a { fallback = some pool }))
      none
      (record pool { url = codes "down:1" }, rented (codes "a"))
      (codes "w")
      (extended 1 10 [] 4))
build_rig-BuiltOn_example =
    build_rig-BuiltOn threshold unreachable (speaks_sv2 [])
      (some (record order_a { fallback = some pool })) none (record pool { url = codes "down:1" })
      (rented (codes "a")) (codes "w") (extended 1 10 [] 4)
