-- ===== src/Sv2/Miner/Crossing.antt =====
-- src/proto/sv2/relay.rs, `handle_seller_miner_sv2`: a miner's frame on its way to the upstream.
use blitzpool_rental_proxy.Prelude.{
  ◌≡◌, refl, ℕ, ◌+◌, ◌%◌, ◌^◌, ◌≤◌, ◌<◌, Bool, true, false, none, some, List, [], ◌∷◌, length, drop,
  if◌then◌else◌, arith,
}
use blitzpool_rental_proxy.Wire.{read_channel_id, rewrite_channel_id}
use blitzpool_rental_proxy.Wire.ChannelId.{read-rewrite}
use blitzpool_rental_proxy.Relay.{order_of}
use blitzpool_rental_proxy.Sv2.{Inner, Frame}
use blitzpool_rental_proxy.Sv2.Channels.{up_for_down}
use blitzpool_rental_proxy.Sv2.Miner.{
  MinerStep, frame_for, dropped, cross, up_of, submitted_if, on_scoped_frame,
}

has_id : (payload : List ℕ) (id : ℕ) → read_channel_id payload ≡ some id → 4 ≤ length payload
unfolding read_channel_id
has_id [] id h = cc
has_id (a ∷ []) id h = cc
has_id (a ∷ b ∷ []) id h = cc
has_id (a ∷ b ∷ c ∷ []) id h = cc
has_id (a ∷ b ∷ c ∷ d ∷ rest) id h = omega arith

module _ {W : Type 0} where
  -- One frame leaves, for the channel of this id and otherwise as it came; a submit is counted, once,
  -- and credited to the order that the session serves.
  abbrev pub Crosses : Bool → Frame → ℕ → Inner W → MinerStep W → Type 0
  Crosses is_submit frame up_cid i step =
      (sent : Frame) × (step.up ≡ frame_for sent ∷ [])
      × (read_channel_id sent.payload ≡ some up_cid)
      × (drop 4 sent.payload ≡ drop 4 frame.payload)
      × (step.submitted ≡ (if is_submit then order_of i.routing else none))
      × (step.inner ≡ (
          if is_submit
          then record i { submitted_shares = (i.submitted_shares + 1) % 2 ^ 64 }
          else i))

  cross-Crosses :
      (is_submit : Bool) (frame : Frame) (down_cid up_cid : ℕ) (i : Inner W)
      → read_channel_id frame.payload ≡ some down_cid
      → up_cid < 2 ^ 32
      → Crosses is_submit frame up_cid i (cross is_submit frame (some up_cid) i)
  unfolding cross
  cross-Crosses is_submit frame down_cid up_cid i h small =
      let (reads, short, kept, size) = read-rewrite up_cid frame.payload small in
      of_submit is_submit (reads (has_id frame.payload down_cid h)) kept
    where
      of_submit :
          (is_submit : Bool)
          → read_channel_id (rewrite_channel_id up_cid frame.payload) ≡ some up_cid
          → drop 4 (rewrite_channel_id up_cid frame.payload) ≡ drop 4 frame.payload
          → Crosses is_submit frame up_cid i (record (submitted_if is_submit i) {
            up =
                frame_for (record frame { payload = rewrite_channel_id up_cid frame.payload }) ∷ [];
          })
      of_submit true reads kept = (_, refl, reads, kept, refl, refl)
      of_submit false reads kept = (_, refl, reads, kept, refl, refl)

  -- A frame that names one of the rig's channels crosses to the upstream under the upstream's id of that
  -- channel, and a share among them is counted once. Upstream ids are below 2^32.
  pub on_scoped_frame-Crosses :
      (is_submit : Bool) (frame : Frame) (down_cid up_cid : ℕ) (i : Inner W)
      → read_channel_id frame.payload ≡ some down_cid
      → up_for_down down_cid i ≡ some up_cid
      → up_cid < 2 ^ 32
      → Crosses is_submit frame up_cid i (on_scoped_frame is_submit frame i)
  unfolding on_scoped_frame
  on_scoped_frame-Crosses is_submit frame down_cid up_cid i h k small =
      rw (h, k) (cross-Crosses is_submit frame down_cid up_cid i h small)

  -- A frame that names none is dropped, and counted for nothing.
  pub on_scoped_frame-dropped :
      (is_submit : Bool) (frame : Frame) (i : Inner W)
      → up_of (read_channel_id frame.payload) i ≡ none
      → on_scoped_frame is_submit frame i ≡ dropped i
  unfolding on_scoped_frame cross
  on_scoped_frame-dropped is_submit frame i h = rw h refl
