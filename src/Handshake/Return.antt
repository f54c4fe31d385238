-- ===== src/Handshake/Return.antt =====
-- src/proto/relay.rs, `handle_seller_miner`: the second connect of a miner that was sent away with a
-- `client.reconnect`.
use blitzpool_rental_proxy.Prelude.{
  Text, Bool, inl, inr, ℕ, ◌-◌, ◌<◌, ◌≡◌, refl, subst, sym, ap, ◌∙◌, Option, some, List, [], lt→ltb,
  text_eq, text_beq_iff,
}
use blitzpool_rental_proxy.Prelude.Dict.{lookup}
use blitzpool_rental_proxy.Prelude.Float.{Float}
use blitzpool_rental_proxy.Session.{UpstreamTarget, Routing, idle}
use blitzpool_rental_proxy.Registry.{Registry, join}
use blitzpool_rental_proxy.Control.{sv1}
use blitzpool_rental_proxy.Orders.{Order}
use blitzpool_rental_proxy.Relay.{RpcMessage, RawUpstream, raw_sv1, raw_sv2, install_raw}
use blitzpool_rental_proxy.Supervise.Sessions.{Session}
use blitzpool_rental_proxy.Handshake.{
  on_pool, sent_away, Authorized, Hints, fresh_hint, handshake_target, reconnect_hint_ttl,
  same_target, wanted, attach_if, place, authorize_onto, authorize, open_session,
}
use blitzpool_rental_proxy.Handshake.Switching.{
  same_target_self, Serves, routing_for, attach_if-Serves,
}
use blitzpool_rental_proxy.Handshake.Placed.{Admitted, authorize-Admitted, Placed}

handshake_target-hinted :
    (now later : ℕ) (ip : Text) (want : UpstreamTarget) (bootstrap : Option UpstreamTarget)
    (hints : Hints)
    → lookup ip hints ≡ some (want, now)
    → later - now < reconnect_hint_ttl
    → (handshake_target later ip bootstrap hints).0 ≡ some want
unfolding handshake_target fresh_hint
handshake_target-hinted now later ip want bootstrap hints e soon =
    rw (e, lt→ltb (later - now) reconnect_hint_ttl soon) refl

module _ {W : Type 0} where
  -- A miner that was sent away is remembered.
  hint_kept :
      (now : ℕ) (ip : Text) (order : Option (Order W)) (want old : UpstreamTarget)
      (served : Routing) (able : Bool) (raw : Option (RawUpstream W)) (hints : Hints)
      (a : Authorized W)
      → a.outcome ≡ sent_away
      → Placed now ip order want old served able raw hints a
      → lookup ip a.hints ≡ some (want, now)
  hint_kept now ip order want old served able raw hints a away (inl h) = cc (away, h.1)
  hint_kept now ip order want old served able raw hints a away (inr (inl h)) = cc (away, h.3)
  hint_kept now ip order want old served able raw hints a away (inr (inr (inl h))) = cc (away, h.3)
  hint_kept now ip order want old served able raw hints a away (inr (inr (inr h))) =
      h.4 ip ∙ (rw ((text_beq_iff ip ip).1 refl) refl)

module _ {W : Type 0} ⦃f : Float W⦄ where
  open_session-Serves :
      (peer : Text) (target : UpstreamTarget) (up : RawUpstream W)
      → Serves target idle (open_session peer target up)
  unfolding open_session install_raw
  open_session-Serves peer target (raw_sv1 en1 en2 prelude) = (refl, refl)
  open_session-Serves peer target (raw_sv2 en1 en2 diff line) = (refl, refl)

  place-there :
      (now : ℕ) (ip : Text) (order : Option (Order W)) (want : UpstreamTarget)
      (lines : List (RpcMessage W)) (raw : Option (RawUpstream W)) (s : Session W) (hints : Hints)
      (registry : Registry)
      → s.inner.target ≡ want
      → place now ip order want lines raw s hints registry ≡ record {
        outcome = on_pool;
        forwarded = [];
        session = attach_if order s;
        hints = hints;
        registry = registry;
      }
  unfolding place
  place-there now ip order want lines raw s hints registry e =
      rw (ap (λ x. same_target x want) e ∙ same_target_self want) refl

  onto-there :
      (now : ℕ) (ip worker : Text) (address : ℕ) (order : Option (Order W)) (want : UpstreamTarget)
      (lines : List (RpcMessage W)) (raw : Option (RawUpstream W)) (s : Session W) (hints : Hints)
      (registry : Registry)
      → Serves want idle s
      → let a = authorize_onto (some want) now ip worker address order lines raw s hints registry in
        (a.outcome ≡ on_pool) × Serves want (routing_for order) a.session
  unfolding authorize_onto
  onto-there now ip worker address order want lines raw s hints registry (e, free) =
      let named = record s { inner = record s.inner { label = worker } } in
      rw
        (place-there now ip order want lines raw named hints (join worker (sv1 address) registry) e)
        (refl, attach_if-Serves order want named e free)

  -- A miner that was sent away and comes back from the same address within two minutes is handed the
  -- pool it should be on for its handshake, whatever the bootstrap pool; and when its worker, for the
  -- same rental or rig, authorizes there it is at its target, with the routing to match and without
  -- another switch.
  pub authorize-return :
      (now later ready : ℕ) (ip worker : Text) (address address' : ℕ) (order : Option (Order W))
      (rig bootstrap : Option UpstreamTarget) (want : UpstreamTarget)
      (lines lines' : List (RpcMessage W)) (raw raw' : Option (RawUpstream W)) (s : Session W)
      (hints : Hints) (registry registry' : Registry) (peer : Text) (up : RawUpstream W)
      → s.inner.routing ≡ idle
      → wanted order rig ≡ some want
      → (authorize now ip worker address order rig lines raw s hints registry).outcome ≡ sent_away
      → later - now < reconnect_hint_ttl
      → let first = authorize now ip worker address order rig lines raw s hints registry in
        let shaken = handshake_target later ip bootstrap first.hints in
        let second =
          authorize ready ip worker address' order rig lines' raw'
            (open_session peer want up)
            shaken.1
            registry' in
        (shaken.0 ≡ some want)
        × (second.outcome ≡ on_pool)
        × Serves want (routing_for order) second.session
  unfolding authorize
  authorize-return now later ready ip worker address address' order rig bootstrap want lines lines'
        raw raw' s hints registry registry' peer up free want_eq away soon =
      let first = authorize now ip worker address order rig lines raw s hints registry in
      let admitted =
        subst (λ w. Admitted now ip address order w lines raw s hints registry first) want_eq
          (authorize-Admitted now ip worker address order rig lines raw s hints registry free) in
      let kept =
        hint_kept now ip order want s.inner.target s.inner.routing _ raw hints first away
          admitted in
      let left = (handshake_target later ip bootstrap first.hints).1 in
      let there =
        onto-there ready ip worker address' order want lines' raw' (open_session peer want up) left
          registry' (open_session-Serves peer want up) in
      let placed = subst (λ w. OnPool w left) (sym want_eq) there in
      (
        handshake_target-hinted now later ip want bootstrap first.hints kept soon,
        placed.0,
        placed.1,
      )
    where
      OnPool : Option UpstreamTarget → Hints → Type 0
      OnPool w left =
          let a =
            authorize_onto w ready ip worker address' order lines' raw' (open_session peer want up)
              left registry' in
          (a.outcome ≡ on_pool) × Serves want (routing_for order) a.session
