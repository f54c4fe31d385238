-- ===== src/Handshake/Placed.antt =====
-- src/proto/relay.rs, `handle_seller_miner`: where an SV1 miner ends, at once or on its second connect.
use blitzpool_rental_proxy.Prelude.{
  Text, ℕ, ◌≡◌, refl, ap, sym, ◌∙◌, Bool, true, false, Option, none, some, List, if◌then◌else◌,
  ◌==◌, text_eq, ◌||◌, ◌≢◌, ◌⊎◌, inl, inr,
}
use blitzpool_rental_proxy.Prelude.Dict.{lookup, lookup-insert}
use blitzpool_rental_proxy.Session.{UpstreamTarget, Routing, idle}
use blitzpool_rental_proxy.Registry.{Registry, join, remove_if}
use blitzpool_rental_proxy.Control.{sv1}
use blitzpool_rental_proxy.Orders.{Order}
use blitzpool_rental_proxy.Relay.{RpcMessage, RawUpstream}
use blitzpool_rental_proxy.Supervise.Sessions.{Session}
use blitzpool_rental_proxy.Handshake.{
  rejected, on_pool, live, sent_away, Authorized, Hints, same_target, grace, wanted, switch_live,
  place, authorize_onto, authorize, torn_down,
}
use blitzpool_rental_proxy.Handshake.Switching.{
  same_target_sound, not_there, routing_for, Serves, subscribes, grace-Serves, grace-capable,
  Switches, switch_live-Switches, attach_if-Serves,
}

module _ {W : Type 0} where
  -- Where a miner is that should be on `want`, from a session that relayed to `old` for `served`; `able`
  -- says whether the miner can be switched live, and `raw` is the connection that a switch gets.
  abbrev pub Placed :
      ℕ
      → Text
      → Option (Order W)
      → UpstreamTarget
      → UpstreamTarget
      → Routing
      → Bool
      → Option (RawUpstream W)
      → Hints
      → Authorized W
      → Type 0
  Placed now ip order want old served able raw hints a =
      ((old ≡ want)
        × (a.outcome ≡ on_pool)
        × Serves want (routing_for order) a.session
        × (a.hints ≡ hints))
      ⊎ ((old ≢ want)
          × (able ≡ true)
          × ((up : RawUpstream W) × (raw ≡ some up))
          × (a.outcome ≡ live true)
          × Serves want (routing_for order) a.session
          × (a.hints ≡ hints))
      ⊎ ((old ≢ want)
          × (able ≡ true)
          × (raw ≡ none)
          × (a.outcome ≡ live false)
          × Serves old served a.session
          × (a.hints ≡ hints))
      ⊎ ((old ≢ want)
          × (able ≡ false)
          × (a.outcome ≡ sent_away)
          × Serves old served a.session
          × ((other : Text)
              → lookup other a.hints
                ≡ (if ip == other then some (want, now) else lookup other hints)))

  one_of :
      (P : Authorized W → Type 0) (same capable : Bool) (x y z : Authorized W)
      → (same ≡ true → P x)
      → (same ≡ false → capable ≡ true → P y)
      → (same ≡ false → capable ≡ false → P z)
      → P (if same then x else if capable then y else z)
  one_of P true capable x y z h k l = h refl
  one_of P false true x y z h k l = k refl refl
  one_of P false false x y z h k l = l refl refl

  live-Placed :
      (now : ℕ) (ip : Text) (order : Option (Order W)) (want old : UpstreamTarget)
      (served : Routing) (able : Bool) (raw : Option (RawUpstream W)) (waited : Session W)
      (result : Bool × Session W) (forwarded : List (Option (RpcMessage W) × Option Text))
      (hints : Hints) (registry : Registry)
      → old ≢ want
      → able ≡ true
      → Serves old served waited
      → Switches want (routing_for order) waited raw result
      → Placed now ip order want old served able raw hints (record {
        outcome = live result.0;
        forwarded = forwarded;
        session = result.1;
        hints = hints;
        registry = registry;
      })
  live-Placed now ip order want old served able none waited result forwarded hints registry ne takes
        h k =
      inr (inr (inl (ne, takes, refl, ap live k.0, (k.1.0 ∙ h.0, k.1.1 ∙ h.1), refl)))
  live-Placed now ip order want old served able (some up) waited result forwarded hints registry ne
        takes h k =
      inr (inl (ne, takes, (up, refl), ap live k.0, k.1, refl))

  place-Placed :
      (now : ℕ) (ip : Text) (order : Option (Order W)) (rig : Option UpstreamTarget)
      (want : UpstreamTarget) (lines : List (RpcMessage W)) (raw : Option (RawUpstream W))
      (s : Session W) (hints : Hints) (registry : Registry)
      → wanted order rig ≡ some want
      → s.inner.routing ≡ idle
      → Placed now ip order want s.inner.target s.inner.routing
          (s.inner.extranonce_capable || subscribes lines)
          raw
          hints
          (place now ip order want lines raw s hints registry)
  unfolding place
  place-Placed now ip order rig want lines raw s hints registry e free =
      let kept = grace-Serves lines s.inner in
      let able = grace-capable lines s.inner in
      let waited = record s { inner = (grace lines s.inner).1 } in
      one_of
        (Placed now ip order want s.inner.target s.inner.routing
          (s.inner.extranonce_capable || subscribes lines) raw hints)
        (same_target s.inner.target want) (grace lines s.inner).1.extranonce_capable _ _ _
        (λ same.
          let there = same_target_sound s.inner.target want same in
          inl (there, refl, attach_if-Serves order want s there free, refl))
        (λ other takes.
          live-Placed now ip order want s.inner.target s.inner.routing
            (s.inner.extranonce_capable || subscribes lines) raw waited
            (switch_live order want raw waited) (grace lines s.inner).0 hints registry
            (not_there s.inner.target want other) (sym able ∙ takes) kept
            (switch_live-Switches order rig want raw waited e))
        (λ other refuses. inr (
          inr (
            inr (
              not_there s.inner.target want other,
              sym able ∙ refuses,
              refl,
              kept,
              λ other_ip. lookup-insert ip other_ip (want, now) hints,
            ))))

  -- With somewhere to mine a miner is placed; without it is turned away, and what is left is that its
  -- connection is over.
  abbrev pub Admitted :
      ℕ
      → Text
      → ℕ
      → Option (Order W)
      → Option UpstreamTarget
      → List (RpcMessage W)
      → Option (RawUpstream W)
      → Session W
      → Hints
      → Registry
      → Authorized W
      → Type 0
  Admitted now ip address order none lines raw s hints registry a =
      (a.outcome ≡ rejected)
      × (a.session ≡ s)
      × (a.hints ≡ hints)
      × (a.registry ≡ remove_if s.inner.label (sv1 address) registry)
  Admitted now ip address order (some want) lines raw s hints registry a =
      Placed now ip order want s.inner.target s.inner.routing
        (s.inner.extranonce_capable || subscribes lines) raw hints a

  authorize_onto-Admitted :
      (target : Option UpstreamTarget) (now : ℕ) (ip worker : Text) (address : ℕ)
      (order : Option (Order W)) (rig : Option UpstreamTarget) (lines : List (RpcMessage W))
      (raw : Option (RawUpstream W)) (s : Session W) (hints : Hints) (registry : Registry)
      → wanted order rig ≡ target
      → s.inner.routing ≡ idle
      → Admitted now ip address order target lines raw s hints registry (
          torn_down address
            (authorize_onto target now ip worker address order lines raw s hints registry))
  unfolding authorize_onto
  authorize_onto-Admitted none now ip worker address order rig lines raw s hints registry e free =
      (refl, refl, refl, refl)
  authorize_onto-Admitted (some want) now ip worker address order rig lines raw s hints registry e
        free =
      place-Placed now ip order rig want lines raw
        (record s { inner = record s.inner { label = worker } }) hints
        (join worker (sv1 address) registry) e free

  pub authorize-Admitted :
      (now : ℕ) (ip worker : Text) (address : ℕ) (order : Option (Order W))
      (rig : Option UpstreamTarget) (lines : List (RpcMessage W)) (raw : Option (RawUpstream W))
      (s : Session W) (hints : Hints) (registry : Registry)
      → s.inner.routing ≡ idle
      → Admitted now ip address order
          (wanted order rig)
          lines
          raw
          s
          hints
          registry
          (authorize now ip worker address order rig lines raw s hints registry)
  unfolding authorize
  authorize-Admitted now ip worker address order rig lines raw s hints registry free =
      authorize_onto-Admitted (wanted order rig) now ip worker address order rig lines raw s hints
        registry refl free
