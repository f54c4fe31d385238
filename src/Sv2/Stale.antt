-- ===== src/Sv2/Stale.antt =====
-- src/proto/sv2/relay.rs, `on_upstream_frame`: frames of an upstream that was swapped away, and what a
-- frame of the current one leaves alone.
use blitzpool_rental_proxy.Prelude.{◌≡◌, ◌≢◌, ℕ, none, [], nat_beq_iff, arith}
use blitzpool_rental_proxy.Prelude.Float.{Float}
use blitzpool_rental_proxy.Sv2.{Inner, Frame}
use blitzpool_rental_proxy.Sv2.Frames.{Codec, on_upstream_frame}

module _ {W : Type 0} ⦃f : Float W⦄ (c : Codec W) where
  -- A frame that a reader of another generation delivers sends nothing, credits nothing and leaves the
  -- session as it was.
  pub on_upstream_frame-stale :
      (now generation : ℕ) (frame : Frame) (i : Inner W)
      → generation ≢ i.generation
      → on_upstream_frame c now generation frame i ≡ ([], none, i)
  unfolding on_upstream_frame
  on_upstream_frame-stale now generation frame i h =
      ground (arith, nat_beq_iff generation i.generation)
