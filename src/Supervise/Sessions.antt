-- ===== src/Supervise/Sessions.antt =====
-- src/proto/relay.rs and src/proto/sv2/relay.rs: `Session` and `Sv2Session`, with the signal that makes
-- their miners reconnect, as the two kinds of session.
use blitzpool_rental_proxy.Prelude.{
  ℕ, ◌+◌, ◌%◌, ◌^◌, Text, Bool, true, false, Option, none, some, List, is_some,
}
use blitzpool_rental_proxy.Prelude.Float.{Float}
use blitzpool_rental_proxy.Session.{UpstreamTarget, Routing, idle, rented}
use blitzpool_rental_proxy.Supervise.{Switchable}
use blitzpool_rental_proxy.Relay as Sv1
use blitzpool_rental_proxy.Relay.{RawUpstream}
use blitzpool_rental_proxy.Sv2 as Sv2
use blitzpool_rental_proxy.Sv2.Frames.{Sent, Codec}
use blitzpool_rental_proxy.Sv2.Translated.{Answer, swap_answered}
use blitzpool_rental_proxy.Translate.{Threshold}

-- An SV1 session.
pub record Session (W : Type 0) : Type 0 where
  pub inner : Sv1.Inner W
  pub default_target : UpstreamTarget
  -- the permit of `Notify` that the miner's task waits for
  pub reconnect : Bool

module _ {W : Type 0} where
  unfoldable pub force_reconnect : Session W → Session W
  force_reconnect s = record s { reconnect = true }

  -- The miner is told over the line, or has to reconnect.
  unfoldable pub swapped : Session W → Option Bool × Sv1.Inner W → Bool × Session W
  unfolding force_reconnect
  swapped s (none, i) = (false, record s { inner = i })
  swapped s (some true, i) = (true, force_reconnect (record s { inner = i }))
  swapped s (some false, i) = (true, record s { inner = i })

  unfoldable pub swap_upstream :
      UpstreamTarget → Routing → Option (RawUpstream W) → Session W → Bool × Session W
  unfolding swapped
  swap_upstream target routing raw s = swapped s (Sv1.swap_upstream target routing raw s.inner)

  unfoldable pub revert : Option (RawUpstream W) → Session W → Bool × Session W
  unfolding swap_upstream
  revert raw s = swap_upstream s.default_target idle raw s

  unfoldable pub set_default :
      UpstreamTarget → Option (RawUpstream W) → Session W → Bool × Session W
  unfolding swap_upstream
  set_default target raw s = swap_upstream target idle raw (record s { default_target = target })

  unfoldable pub attach_order : Text → Session W → Session W
  attach_order order_id s = record s { inner = record s.inner { routing = rented order_id } }

  abbrev pub sv1_session : Switchable (Option (RawUpstream W)) (Session W)
  sv1_session = record {
    generation_of = λ s. s.inner.generation;
    routing_of = λ s. s.inner.routing;
    swap = swap_upstream;
    revert = revert;
    force_reconnect = force_reconnect;
    on_recovered = λ s. s;
  }

-- An SV2 session.
pub record Sv2Session (W : Type 0) : Type 0 where
  pub inner : Sv2.Inner W
  -- what the members watch
  pub epoch : ℕ

module _ {W : Type 0} where
  unfoldable pub bump_epoch : Sv2Session W → Sv2Session W
  bump_epoch s = record s { epoch = (s.epoch + 1) % 2 ^ 64 }

  unfoldable pub with_inner :
      Sv2Session W → Option (List (Sent W)) × Sv2.Inner W → Bool × Sv2Session W
  with_inner s (o, i) = (is_some o, record s { inner = i })

module _ {W : Type 0} ⦃f : Float W⦄ (t : Threshold W) (c : Codec W) where
  unfoldable pub sv2_swap : UpstreamTarget → Routing → Answer W → Sv2Session W → Bool × Sv2Session W
  unfolding with_inner
  sv2_swap target routing answer s = with_inner s (swap_answered t c target routing answer s.inner)

  -- A rig without an idle pool is not reverted: its miners are disconnected.
  unfoldable pub revert_to : Option UpstreamTarget → Answer W → Sv2Session W → Bool × Sv2Session W
  unfolding sv2_swap bump_epoch
  revert_to none answer s = (true, bump_epoch s)
  revert_to (some target) answer s = sv2_swap target idle answer s

  unfoldable pub sv2_revert : Answer W → Sv2Session W → Bool × Sv2Session W
  unfolding revert_to
  sv2_revert answer s = revert_to s.inner.default_target answer s

  abbrev pub sv2_session : Switchable (Answer W) (Sv2Session W)
  sv2_session = record {
    generation_of = λ s. s.inner.generation;
    routing_of = λ s. s.inner.routing;
    swap = sv2_swap;
    revert = sv2_revert;
    force_reconnect = bump_epoch;
    on_recovered = bump_epoch;
  }
