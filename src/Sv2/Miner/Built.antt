-- ===== src/Sv2/Miner/Built.antt =====
-- src/proto/sv2/relay.rs, `handle_seller_miner_sv2`: what a rig that was built for a miner relays to.
use blitzpool_rental_proxy.Prelude.{
  ◌≡◌, refl, ◌⊎◌, inl, inr, ℕ, Bool, true, false, Option, none, some, [], ◌∷◌, Text, nat_eq,
}
use blitzpool_rental_proxy.Prelude.Dict.{insert}
use blitzpool_rental_proxy.Prelude.Float.{Float}
use blitzpool_rental_proxy.Session.{UpstreamTarget, Routing}
use blitzpool_rental_proxy.Orders.{Order}
use blitzpool_rental_proxy.Sv2.{OpenSpec, Channel, Inner}
use blitzpool_rental_proxy.Sv2.Channels.{add_member}
use blitzpool_rental_proxy.Sv2.Switch.{install_active}
use blitzpool_rental_proxy.Sv2.Translated.{Answer, unreachable, speaks_sv2, not_sv2}
use blitzpool_rental_proxy.Sv2.Miner.{
  Install, fresh_rig, install_sv2_initial, install_sv1_translate_initial,
  connect_and_install_initial, or_other, fallback_of, build_rig,
}
use blitzpool_rental_proxy.Translate.{Threshold}

-- The first of the two pools that can be had.
abbrev pub chosen : UpstreamTarget → Bool → Option UpstreamTarget → Bool → Option UpstreamTarget
chosen target true other second = some target
chosen target false none second = none
chosen target false (some other) true = some other
chosen target false (some other) false = none

module _ {W : Type 0} where
  -- The miner's channel is open, or its open waits for the upstream's answer, and nothing else is.
  abbrev pub Opening : ℕ → OpenSpec W → Inner W → Type 0
  Opening member spec i =
      ((i.translating ≡ false)
        × (i.channels ≡ [])
        × ((up_req : ℕ) × (i.pending ≡ (up_req, (member, spec)) ∷ [])))
      ⊎ ((i.translating ≡ true)
          × (i.pending ≡ [])
          × ((ch : Channel W) × (i.channels ≡ ch ∷ []) × (ch.owner ≡ member) × (ch.spec ≡ spec)))

  abbrev pub Installed :
      UpstreamTarget → Routing → Option UpstreamTarget → ℕ → OpenSpec W → Inner W → Type 0
  Installed target routing default_target member spec i =
      (i.target ≡ target)
      × (i.routing ≡ routing)
      × (i.default_target ≡ default_target)
      × (i.members ≡ member ∷ [])
      × Opening member spec i

  -- A pool that can be had, with either protocol.
  abbrev pub reaches : Answer W → Bool
  reaches unreachable = false
  reaches (speaks_sv2 opens) = true
  reaches (not_sv2 none) = false
  reaches (not_sv2 (some conn)) = true

  abbrev pub BuiltOn :
      Option UpstreamTarget → Routing → Option UpstreamTarget → OpenSpec W → ℕ × Install W → Type 0
  BuiltOn none routing default_target spec (member, (ok, up, back, i)) = ok ≡ false
  BuiltOn (some target) routing default_target spec (member, (ok, up, back, i)) =
      (ok ≡ true) × Installed target routing default_target member spec i

module _ {W : Type 0} ⦃f : Float W⦄ (t : Threshold W) where
  on_other :
      (answer : Answer W) (start other : UpstreamTarget) (routing : Routing)
      (idle_target : Option UpstreamTarget) (worker : Text) (spec : OpenSpec W)
      → BuiltOn (chosen start false (some other) (reaches answer)) routing idle_target spec (
        1,
        connect_and_install_initial t true answer other spec routing 1
            (fresh_rig start routing idle_target worker).1,
      )
  unfolding fresh_rig connect_and_install_initial install_sv2_initial install_sv1_translate_initial
      install_active add_member insert
  on_other unreachable start other routing idle_target worker spec = refl
  on_other (speaks_sv2 opens) start other routing idle_target worker spec =
      (refl, (refl, refl, refl, refl, inl (refl, refl, (_, refl))))
  on_other (not_sv2 none) start other routing idle_target worker spec = refl
  on_other (not_sv2 (some conn)) start other routing idle_target worker spec =
      (refl, (refl, refl, refl, refl, inr (refl, refl, (_, refl, refl, refl))))

  with_other :
      (other : Option UpstreamTarget) (answer : Answer W) (start : UpstreamTarget)
      (routing : Routing) (idle_target : Option UpstreamTarget) (worker : Text) (spec : OpenSpec W)
      → BuiltOn (chosen start false other (reaches answer)) routing idle_target spec (
        1,
        or_other t true answer other spec routing 1
            (false, [], [], (fresh_rig start routing idle_target worker).1),
      )
  unfolding or_other
  with_other none answer start routing idle_target worker spec = refl
  with_other (some other) answer start routing idle_target worker spec =
      on_other answer start other routing idle_target worker spec

  -- A rig that is built for a miner is on the first target if that pool can be had, with SV2 or with
  -- SV1, or else on the fallback of the order if that one can, and serves the order or nobody as
  -- decided; its idle pool is kept for the revert, and the miner's channel is open or asked for, alone.
  -- If neither pool can be had, or there is no fallback, the miner is refused.
  pub build_rig-BuiltOn :
      (first second : Answer W) (order : Option (Order W)) (idle_target : Option UpstreamTarget)
      (target : UpstreamTarget) (routing : Routing) (worker : Text) (spec : OpenSpec W)
      → BuiltOn
          (chosen target (reaches first) (fallback_of order) (reaches second))
          routing
          idle_target
          spec
          (build_rig t true first second order idle_target (target, routing) worker spec)
  unfolding build_rig fresh_rig or_other connect_and_install_initial install_sv2_initial
      install_sv1_translate_initial install_active add_member insert
  build_rig-BuiltOn unreachable second order idle_target target routing worker spec =
      with_other (fallback_of order) second target routing idle_target worker spec
  build_rig-BuiltOn (speaks_sv2 opens) second order idle_target target routing worker spec =
      (refl, (refl, refl, refl, refl, inl (refl, refl, (_, refl))))
  build_rig-BuiltOn (not_sv2 none) second order idle_target target routing worker spec =
      with_other (fallback_of order) second target routing idle_target worker spec
  build_rig-BuiltOn (not_sv2 (some conn)) second order idle_target target routing worker spec =
      (refl, (refl, refl, refl, refl, inr (refl, refl, (_, refl, refl, refl))))
