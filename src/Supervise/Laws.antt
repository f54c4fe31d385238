-- ===== src/Supervise/Laws.antt =====
-- src/proto/relay.rs and src/proto/sv2/relay.rs: both kinds of session keep the laws that the
-- supervision relies on.
use blitzpool_rental_proxy.Prelude.{
  ◌≡◌, refl, sym, ap, ◌∙◌, Bool, true, false, Option, none, some, List, [], ◌∷◌, is_some,
  Bool-cases, inl, inr,
}
use blitzpool_rental_proxy.Prelude.Float.{Float}
use blitzpool_rental_proxy.Session.{UpstreamTarget, Routing, idle}
use blitzpool_rental_proxy.Supervise.{Lawful}
use blitzpool_rental_proxy.Supervise.Sessions.{
  Session, force_reconnect, swapped, swap_upstream, revert, sv1_session, Sv2Session, bump_epoch,
  with_inner, sv2_swap, revert_to, sv2_revert, sv2_session,
}
use blitzpool_rental_proxy.Relay as Sv1
use blitzpool_rental_proxy.Relay.{RawUpstream, raw_sv1, raw_sv2}
use blitzpool_rental_proxy.Sv2 as Sv2
use blitzpool_rental_proxy.Sv2.{Channel, ChannelInfo}
use blitzpool_rental_proxy.Sv2.Switch
use blitzpool_rental_proxy.Sv2.Frames.{Sent, Codec}
use blitzpool_rental_proxy.Sv2.Continuity.{swap_upstream-Kept, swap_upstream-failed}
use blitzpool_rental_proxy.Sv2.Translated.{
  Answer, unreachable, speaks_sv2, not_sv2, Sv1UpConn, swap_answered, swap_to_sv1_translate,
  swap_first, install_translated, next_generation,
}
use blitzpool_rental_proxy.Translate.{Threshold}

module _ {W : Type 0} where
  swapped-fields :
      (s : Session W) (o : Option Bool) (i : Sv1.Inner W)
      → ((swapped s (o, i)).0 ≡ is_some o) × ((swapped s (o, i)).1.inner ≡ i)
  unfolding swapped force_reconnect
  swapped-fields s none i = (refl, refl)
  swapped-fields s (some true) i = (refl, refl)
  swapped-fields s (some false) i = (refl, refl)

  sv1_ok :
      (target : UpstreamTarget) (routing : Routing) (raw : Option (RawUpstream W)) (i : Sv1.Inner W)
      → is_some (Sv1.swap_upstream target routing raw i).0 ≡ true
      → (Sv1.swap_upstream target routing raw i).1.routing ≡ routing
  unfolding Sv1.swap_upstream Sv1.install_raw
  sv1_ok target routing none i h = cc
  sv1_ok target routing (some (raw_sv1 en1 en2 prelude)) i h = refl
  sv1_ok target routing (some (raw_sv2 en1 en2 diff line)) i h = refl

  sv1_failed :
      (target : UpstreamTarget) (routing : Routing) (raw : Option (RawUpstream W)) (i : Sv1.Inner W)
      → is_some (Sv1.swap_upstream target routing raw i).0 ≡ false
      → ((Sv1.swap_upstream target routing raw i).1.routing ≡ i.routing)
        × ((Sv1.swap_upstream target routing raw i).1.generation ≡ i.generation)
  unfolding Sv1.swap_upstream
  sv1_failed target routing none i h = (refl, refl)
  sv1_failed target routing (some up) i h = cc

  sv1_swap_ok :
      (target : UpstreamTarget) (routing : Routing) (raw : Option (RawUpstream W)) (s : Session W)
      → (swap_upstream target routing raw s).0 ≡ true
      → (swap_upstream target routing raw s).1.inner.routing ≡ routing
  unfolding swap_upstream
  sv1_swap_ok target routing raw s h =
      let (ok, inner) = swapped-fields s _ _ in
      ap (λ x. x.routing) inner ∙ sv1_ok target routing raw s.inner (sym ok ∙ h)

  sv1_swap_failed :
      (target : UpstreamTarget) (routing : Routing) (raw : Option (RawUpstream W)) (s : Session W)
      → (swap_upstream target routing raw s).0 ≡ false
      → ((swap_upstream target routing raw s).1.inner.routing ≡ s.inner.routing)
        × ((swap_upstream target routing raw s).1.inner.generation ≡ s.inner.generation)
  unfolding swap_upstream
  sv1_swap_failed target routing raw s h =
      let (ok, inner) = swapped-fields s _ _ in
      let (r, g) = sv1_failed target routing raw s.inner (sym ok ∙ h) in
      (ap (λ x. x.routing) inner ∙ r, ap (λ x. x.generation) inner ∙ g)

  -- With a connection a switch of an SV1 session succeeds.
  pub swap_upstream-connected :
      (target : UpstreamTarget) (routing : Routing) (up : RawUpstream W) (s : Session W)
      → (swap_upstream target routing (some up) s).0 ≡ true
  unfolding swap_upstream Sv1.swap_upstream
  swap_upstream-connected target routing up s = (swapped-fields s (some _) _).0

  sv1_revert_idle :
      (raw : Option (RawUpstream W)) (s : Session W)
      → s.inner.routing ≡ idle
      → (revert raw s).1.inner.routing ≡ idle
  unfolding revert
  sv1_revert_idle raw s e = elim (Bool-cases (swap_upstream s.default_target idle raw s).0) [
    | inl h ↦ sv1_swap_ok s.default_target idle raw s h
    | inr h ↦ (sv1_swap_failed s.default_target idle raw s h).0 ∙ e
  ]

  -- The SV1 session: a switch that succeeds routes as asked; one that fails, a revert included, leaves
  -- the routing and the generation; a revert of an idle session leaves it idle; and no reconnect signal
  -- changes the routing.
  pub sv1_session-Lawful : Lawful (sv1_session {W = W})
  unfolding revert force_reconnect
  sv1_session-Lawful = record {
    swap_ok = sv1_swap_ok;
    swap_failed = sv1_swap_failed;
    revert_idle = sv1_revert_idle;
    revert_failed = λ raw s h. sv1_swap_failed s.default_target idle raw s h;
    reconnect_routing = λ s. refl;
    recovered_routing = λ s. refl;
  }

module _ {W : Type 0} ⦃f : Float W⦄ (t : Threshold W) (c : Codec W) where
  -- A switch that succeeds routes as asked, one that fails keeps the routing and the generation.
  abbrev Result : Routing → Sv2.Inner W → Option (List (Sent W)) × Sv2.Inner W → Type 0
  Result routing i (some sent, i') = i'.routing ≡ routing
  Result routing i (none, i') = (i'.routing ≡ i.routing) × (i'.generation ≡ i.generation)

  of_first :
      (target : UpstreamTarget) (routing : Routing) (conn : Option (Sv1UpConn W))
      (channels : List (Channel W)) (i : Sv2.Inner W)
      → Result routing i (swap_first t target routing conn channels i)
  unfolding swap_first install_translated
  of_first target routing conn [] i = (refl, refl)
  of_first target routing none (ch ∷ rest) i = (refl, refl)
  of_first target routing (some conn) (ch ∷ rest) i = refl

  of_opens :
      (target : UpstreamTarget) (routing : Routing) (i : Sv2.Inner W)
      (opens : List (Option ChannelInfo)) (result : Option (List (Sent W)) × Sv2.Inner W)
      → Switch.swap_upstream c target routing opens i ≡ result
      → Result routing i result
  of_opens target routing i opens (some sent, i') e =
      ap (λ x. x.1.routing) (sym e)
      ∙ (swap_upstream-Kept c target routing opens i sent (ap (λ x. x.0) e)).3
  of_opens target routing i opens (none, i') e =
      let kept =
        ap (λ x. x.1) (sym e) ∙ swap_upstream-failed c target routing opens i (ap (λ x. x.0) e) in
      (ap (λ x. x.routing) kept, ap (λ x. x.generation) kept)

  swap_answered-Result :
      (target : UpstreamTarget) (routing : Routing) (answer : Answer W) (i : Sv2.Inner W)
      → Result routing i (swap_answered t c target routing answer i)
  unfolding swap_answered swap_to_sv1_translate
  swap_answered-Result target routing unreachable i = (refl, refl)
  swap_answered-Result target routing (speaks_sv2 opens) i = of_opens target routing i opens _ refl
  swap_answered-Result target routing (not_sv2 conn) i =
      of_first target routing conn i.channels (next_generation t i)

  -- The same of a session.
  abbrev SessionResult : Routing → Sv2Session W → Bool × Sv2Session W → Type 0
  SessionResult routing s (true, s') = s'.inner.routing ≡ routing
  SessionResult routing s (false, s') =
      (s'.inner.routing ≡ s.inner.routing) × (s'.inner.generation ≡ s.inner.generation)

  of_inner :
      (routing : Routing) (s : Sv2Session W) (result : Option (List (Sent W)) × Sv2.Inner W)
      → Result routing s.inner result
      → SessionResult routing s (with_inner s result)
  unfolding with_inner
  of_inner routing s (some sent, i') h = h
  of_inner routing s (none, i') h = h

  sv2_swap-Result :
      (target : UpstreamTarget) (routing : Routing) (answer : Answer W) (s : Sv2Session W)
      → SessionResult routing s (sv2_swap t c target routing answer s)
  unfolding sv2_swap
  sv2_swap-Result target routing answer s =
      of_inner routing s (swap_answered t c target routing answer s.inner)
        (swap_answered-Result target routing answer s.inner)

  ok_routing :
      (routing : Routing) (s : Sv2Session W) (result : Bool × Sv2Session W)
      → SessionResult routing s result
      → result.0 ≡ true
      → result.1.inner.routing ≡ routing
  ok_routing routing s (true, s') h e = h
  ok_routing routing s (false, s') h e = cc

  failed_fields :
      (routing : Routing) (s : Sv2Session W) (result : Bool × Sv2Session W)
      → SessionResult routing s result
      → result.0 ≡ false
      → (result.1.inner.routing ≡ s.inner.routing)
        × (result.1.inner.generation ≡ s.inner.generation)
  failed_fields routing s (true, s') h e = cc
  failed_fields routing s (false, s') h e = h

  idle_stays :
      (s : Sv2Session W) (result : Bool × Sv2Session W)
      → SessionResult idle s result
      → s.inner.routing ≡ idle
      → result.1.inner.routing ≡ idle
  idle_stays s (true, s') h e = h
  idle_stays s (false, s') h e = h.0 ∙ e

  revert_to_idle :
      (target : Option UpstreamTarget) (answer : Answer W) (s : Sv2Session W)
      → s.inner.routing ≡ idle
      → (revert_to t c target answer s).1.inner.routing ≡ idle
  unfolding revert_to bump_epoch
  revert_to_idle none answer s e = e
  revert_to_idle (some target) answer s e = idle_stays s _ (sv2_swap-Result target idle answer s) e

  revert_to_failed :
      (target : Option UpstreamTarget) (answer : Answer W) (s : Sv2Session W)
      → (revert_to t c target answer s).0 ≡ false
      → ((revert_to t c target answer s).1.inner.routing ≡ s.inner.routing)
        × ((revert_to t c target answer s).1.inner.generation ≡ s.inner.generation)
  unfolding revert_to
  revert_to_failed none answer s e = cc
  revert_to_failed (some target) answer s e =
      failed_fields idle s _ (sv2_swap-Result target idle answer s) e

  -- The SV2 session, whether the pool is unreachable or speaks SV2 or SV1: a switch that succeeds routes
  -- as asked; one that fails, a revert included, leaves the routing and the generation; a revert of an
  -- idle session leaves it idle; and no reconnect signal changes the routing.
  pub sv2_session-Lawful : Lawful (sv2_session t c)
  unfolding sv2_revert bump_epoch
  sv2_session-Lawful = record {
    swap_ok = λ target routing answer s e.
        ok_routing routing s _ (sv2_swap-Result target routing answer s) e;
    swap_failed = λ target routing answer s e.
        failed_fields routing s _ (sv2_swap-Result target routing answer s) e;
    revert_idle = λ answer s e. revert_to_idle s.inner.default_target answer s e;
    revert_failed = λ answer s e. revert_to_failed s.inner.default_target answer s e;
    reconnect_routing = λ s. refl;
    recovered_routing = λ s. refl;
  }
