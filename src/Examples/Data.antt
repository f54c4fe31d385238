-- ===== src/Examples/Data.antt =====
-- The data of the tests: whole numbers in the place of `f64`, two rentals of two rigs, and a rig.
use blitzpool_rental_proxy.Prelude.{
  Text, ℕ, ◌+◌, ◌-◌, ◌*◌, ◌/◌, ◌^◌, true, false, none, [], ◌∷◌, ltb, leb, if◌then◌else◌,
}
use blitzpool_rental_proxy.Prelude.Strings.{codes}
use blitzpool_rental_proxy.Prelude.Int.{ℤ, pos}
use blitzpool_rental_proxy.Prelude.Float.{Float}
use blitzpool_rental_proxy.Session.{UpstreamTarget}
use blitzpool_rental_proxy.Control.{sv1, sv2, SessionStatus, RoutingName, sv1_name}
use blitzpool_rental_proxy.Registry.{Registry}
use blitzpool_rental_proxy.Orders.Row.{OrderRow, active_word, ended_word}
use blitzpool_rental_proxy.Translate.{Threshold}
use blitzpool_rental_proxy.Orders.Store.{OrderStore}

-- A float of whole numbers: a division rounds down.
instance abbrev pub whole : Float ℕ
whole = record {
  of_nat = λ n. n;
  decimal = λ m k. m / 10 ^ k;
  add = λ a b. a + b;
  sub = λ a b. a - b;
  mul = λ a b. a * b;
  div = λ a b. a / b;
  fmin = λ a b. if leb a b then a else b;
  fmax = λ a b. if leb a b then b else a;
  lt = ltb;
  le = leb;
}

abbrev pub pool : UpstreamTarget
pool = record {
  url = codes "pool:3333";
  user = codes "acct";
  password = codes "x";
  authority_pubkey = none;
}

abbrev pub row : Text → Text → ℤ → Text → OrderRow ℕ
row id worker until_ms status = record {
  id = id;
  worker = worker;
  target_url = codes "pool:3333";
  target_user = codes "acct";
  target_password = codes "x";
  target_authority = none;
  fallback_url = none;
  fallback_user = none;
  fallback_password = none;
  fallback_authority = none;
  created_ms = pos 1;
  until_ms = until_ms;
  status = status;
  ended_ms = pos 0;
  delivered_work = 0;
  accepted_shares = pos 5;
  submitted_shares = pos 6;
  price_per_th_day = 1;
  budget = 0;
}

abbrev pub threshold : Threshold ℕ
threshold = record {
  is_finite = λ d. true;
  rounded = λ d. d;
  as_u128 = λ d. d;
  difficulty_float = λ bytes. 1;
  to_little_endian = λ n. n ∷ [];
  diff1 = 65535 * 2 ^ 208;
}

-- Rig `w` is rented until 100, rig `v` was rented before.
abbrev pub store : OrderStore ℕ
store = record {
  orders =
      row (codes "a") (codes "w") (pos 100) active_word
      ∷ row (codes "b") (codes "v") (pos 50) ended_word
      ∷ [];
  pending = (codes "a", record { work = 3; accepted = 2; submitted = 2 }) ∷ [];
  seq = 7;
}

abbrev pub live_sessions : Registry
live_sessions = (codes "w", sv1 1 ∷ sv2 2 ∷ []) ∷ (codes "v", sv1 3 ∷ []) ∷ []

abbrev pub status_of : RoutingName → SessionStatus ℕ
status_of routing = record {
  worker = codes "v";
  routing = routing;
  order_id = none;
  upstream_url = codes "pool:3333";
  hashrate_hs = 10;
  delivered_work = 4;
  accepted_shares = 5;
  submitted_shares = 6;
  accept_ratio_value = 0;
  accept_ratio_is_low = false;
  protocol = sv1_name;
}
