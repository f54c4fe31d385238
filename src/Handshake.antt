-- ===== src/Handshake.antt =====
-- src/proto/relay.rs, `handle_seller_miner`: which upstream an SV1 miner is handed, from the connect to
-- its authorize. The lines that come while the proxy waits for `mining.extranonce.subscribe`, and the
-- connection to a pool, are outside.
pub mod Switching
pub mod Placed
pub mod Return
use blitzpool_rental_proxy.Prelude.{
  Text, ℕ, ◌+◌, ◌-◌, ◌≡◌, refl, ap, ◌↔◌, Bool, true, false, ◌&&◌, Option, none, some, List, [], ◌∷◌,
  if◌then◌else◌, ltb, ◌==◌, text_eq, arith, text_beq_iff,
}
use blitzpool_rental_proxy.Prelude.Strings.{codes}
use blitzpool_rental_proxy.Prelude.Dict.{Dict, lookup, insert, remove}
use blitzpool_rental_proxy.Prelude.Float.{Float, nought}
use blitzpool_rental_proxy.Session.{UpstreamTarget, idle, rented}
use blitzpool_rental_proxy.Session.Window.{new}
use blitzpool_rental_proxy.Control.{AnySession, sv1}
use blitzpool_rental_proxy.Registry.{Registry, join, remove_if}
use blitzpool_rental_proxy.Orders.{Order}
use blitzpool_rental_proxy.Relay.{RpcMessage, Inner, RawUpstream, install_raw, on_miner_msg}
use blitzpool_rental_proxy.Supervise.Sessions.{Session, swap_upstream, set_default, attach_order}

-- Milliseconds.
abbrev pub reconnect_hint_ttl : ℕ
reconnect_hint_ttl = 120_000

abbrev pub option_text_beq : Option Text → Option Text → Bool
option_text_beq none none = true
option_text_beq (some s) (some t) = s == t
option_text_beq none (some t) = false
option_text_beq (some s) none = false

-- The derived `==`.
unfoldable pub same_target : UpstreamTarget → UpstreamTarget → Bool
same_target a b =
    (a.url == b.url)
    && (a.user == b.user)
    && (a.password == b.password)
    && option_text_beq a.authority_pubkey b.authority_pubkey

-- By source address: the pool that a miner comes back for, and when it was sent away.
abbrev pub Hints : Type 0
Hints = Dict Text (UpstreamTarget × ℕ)

unfoldable pub fresh_hint : ℕ → Option (UpstreamTarget × ℕ) → Option UpstreamTarget
fresh_hint now none = none
fresh_hint now (some (target, at)) = if ltb (now - at) reconnect_hint_ttl then some target else none

abbrev pub or_default : Option UpstreamTarget → Option UpstreamTarget → Option UpstreamTarget
or_default none bootstrap = bootstrap
or_default (some target) bootstrap = some target

-- The pool of the handshake; none refuses the connection. A hint is used once.
unfoldable pub handshake_target :
    ℕ → Text → Option UpstreamTarget → Hints → Option UpstreamTarget × Hints
unfolding fresh_hint
handshake_target now ip bootstrap hints =
    (or_default (fresh_hint now (lookup ip hints)) bootstrap, remove ip hints)

module _ {W : Type 0} ⦃f : Float W⦄ where
  placeholder : Text → UpstreamTarget → Inner W
  placeholder peer target = record {
    generation = 0;
    target = target;
    generation_counter = 1;
    routing = idle;
    current_difficulty = f.of_nat 1;
    pending = [];
    extranonce_capable = false;
    configure = none;
    hashrate = new 600_000;
    delivered_work = nought;
    accepted_shares = 0;
    submitted_shares = 0;
    accept_low_logged = false;
    label = peer;
    translating = false;
    extranonce1 = [];
    extranonce2_size = 0;
    pending_prelude = [];
    subscribed = false;
  }

  -- The session of a new connection, its bootstrap upstream in place.
  unfoldable pub open_session : Text → UpstreamTarget → RawUpstream W → Session W
  unfolding placeholder install_raw
  open_session peer target raw = record {
    inner = install_raw raw 1 target idle (placeholder peer target);
    default_target = target;
    reconnect = false;
  }

abbrev pub is_subscribe : Option Text → Bool
is_subscribe none = false
is_subscribe (some method) = method == codes "mining.extranonce.subscribe"

-- What became of an authorize.
pub data Outcome : Type 0 where
  -- neither a rental nor a rig
  rejected : Outcome
  on_pool : Outcome
  -- a live switch, and whether it succeeded
  live : Bool → Outcome
  -- `client.reconnect`
  sent_away : Outcome

abbrev pub ends : Outcome → Bool
ends rejected = true
ends on_pool = false
ends (live ok) = false
ends sent_away = true

pub record Authorized (W : Type 0) : Type 0 where
  pub outcome : Outcome
  -- lines for the upstream, and the orders that they were submits for
  pub forwarded : List (Option (RpcMessage W) × Option Text)
  pub session : Session W
  pub hints : Hints
  pub registry : Registry

module _ {W : Type 0} where
  abbrev pub noted :
      Option (RpcMessage W) × Option Text × Inner W
      → List (Option (RpcMessage W) × Option Text) × Inner W
      → List (Option (RpcMessage W) × Option Text) × Inner W
  noted (line, order, i) (rest, i') = ((line, order) ∷ rest, i')

  -- The lines that come within the grace, until one subscribes.
  unfoldable pub grace :
      List (RpcMessage W) → Inner W → List (Option (RpcMessage W) × Option Text) × Inner W
  unfolding on_miner_msg
  grace [] i = ([], i)
  grace (msg ∷ lines) i =
      let capable = record i { extranonce_capable = true } in
      let step = on_miner_msg msg i in
      let after = grace lines step.2 in
      if i.extranonce_capable
      then ([], i)
      else if is_subscribe msg.method
      then ([], capable)
      else noted step after

  abbrev pub wanted : Option (Order W) → Option UpstreamTarget → Option UpstreamTarget
  wanted none rig = rig
  wanted (some o) rig = some o.target

  abbrev pub attach_if : Option (Order W) → Session W → Session W
  attach_if none s = s
  attach_if (some o) s = attach_order o.id s

  -- The live switch.
  unfoldable pub switch_live :
      Option (Order W) → UpstreamTarget → Option (RawUpstream W) → Session W → Bool × Session W
  unfolding swap_upstream set_default
  switch_live none want raw s = set_default want raw s
  switch_live (some o) want raw s = swap_upstream o.target (rented o.id) raw s

  unfoldable pub place :
      ℕ
      → Text
      → Option (Order W)
      → UpstreamTarget
      → List (RpcMessage W)
      → Option (RawUpstream W)
      → Session W
      → Hints
      → Registry
      → Authorized W
  unfolding same_target attach_order grace switch_live
  place now ip order want lines raw s hints registry =
      let (forwarded, i) = grace lines s.inner in
      let waited = record s { inner = i } in
      let (ok, switched) = switch_live order want raw waited in
      if same_target s.inner.target want
      then record {
        outcome = on_pool;
        forwarded = [];
        session = attach_if order s;
        hints = hints;
        registry = registry;
      }
      else if i.extranonce_capable
      then record {
        outcome = live ok;
        forwarded = forwarded;
        session = switched;
        hints = hints;
        registry = registry;
      }
      else record {
        outcome = sent_away;
        forwarded = forwarded;
        session = waited;
        hints = insert ip (want, now) hints;
        registry = registry;
      }

  unfoldable pub authorize_onto :
      Option UpstreamTarget
      → ℕ
      → Text
      → Text
      → ℕ
      → Option (Order W)
      → List (RpcMessage W)
      → Option (RawUpstream W)
      → Session W
      → Hints
      → Registry
      → Authorized W
  unfolding place join
  authorize_onto none now ip worker address order lines raw s hints registry = record {
    outcome = rejected;
    forwarded = [];
    session = s;
    hints = hints;
    registry = registry;
  }
  authorize_onto (some want) now ip worker address order lines raw s hints registry =
      place now ip order want lines raw (record s { inner = record s.inner { label = worker } })
        hints (join worker (sv1 address) registry)

  -- A connection that is turned or sent away is over: its session leaves the registry.
  abbrev pub torn_down : ℕ → Authorized W → Authorized W
  torn_down address a = record a {
    registry =
        if ends a.outcome
        then remove_if a.session.inner.label (sv1 address) a.registry
        else a.registry;
  }

  -- mining.authorize: the time, the source address, the worker and the session's address, its active
  -- rental and its rig's pool, the lines of the grace, and the connection of a live switch.
  unfoldable pub authorize :
      ℕ
      → Text
      → Text
      → ℕ
      → Option (Order W)
      → Option UpstreamTarget
      → List (RpcMessage W)
      → Option (RawUpstream W)
      → Session W
      → Hints
      → Registry
      → Authorized W
  unfolding authorize_onto remove_if
  authorize now ip worker address order rig lines raw s hints registry =
      torn_down address
        (authorize_onto (wanted order rig) now ip worker address order lines raw s hints registry)
