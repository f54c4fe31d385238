-- ===== src/Sv2/Miner.antt =====
-- src/proto/sv2/relay.rs, `handle_seller_miner_sv2`: where a miner's first channel opens, the rig that
-- is built for it, and what its frames do afterwards.
pub mod Crossing
pub mod Built
use blitzpool_rental_proxy.Prelude.{
  Text, ℕ, ◌+◌, ◌%◌, ◌^◌, Bool, true, false, ◌||◌, Option, none, some, List, [], ◌∷◌, if◌then◌else◌,
  nat_beq, nat_eq,
}
use blitzpool_rental_proxy.Prelude.Dict.{insert}
use blitzpool_rental_proxy.Prelude.Float.{Float, nought}
use blitzpool_rental_proxy.Session.{UpstreamTarget, Routing, idle, rented}
use blitzpool_rental_proxy.Session.Window.{new}
use blitzpool_rental_proxy.Wire.{
  MessageTypes, is_channel_scoped, read_channel_id, rewrite_channel_id,
}
use blitzpool_rental_proxy.Orders.{Order}
use blitzpool_rental_proxy.Relay.{order_of}
use blitzpool_rental_proxy.Sv2.{
  OpenSpec, request_id, ChannelInfo, Inner, Frame, Message, Request, open_channel, open_success,
  open_error,
}
use blitzpool_rental_proxy.Sv2.Channels.{next_u32, add_member, up_for_down, upstream_worker}
use blitzpool_rental_proxy.Sv2.Switch.{install_active}
use blitzpool_rental_proxy.Sv2.Translated.{
  Sv1UpConn, Answer, unreachable, speaks_sv2, not_sv2, synthesized,
}
use blitzpool_rental_proxy.Translate.{Threshold, target_from_difficulty}

-- What goes to the upstream for a miner.
pub data ToUpstream (W : Type 0) : Type 0 where
  request : Request W → ToUpstream W
  frame_for : Frame → ToUpstream W

-- The message types that open a channel.
pub record OpenTypes : Type 0 where
  pub open_standard : ℕ
  pub open_extended : ℕ

-- What a frame of the miner sends to the upstream and back, the order that it was a submit for, and
-- the session.
pub record MinerStep (W : Type 0) : Type 0 where
  pub up : List (ToUpstream W)
  pub back : List (Message W)
  pub submitted : Option Text
  pub inner : Inner W

module _ {W : Type 0} where
  abbrev pub dropped : Inner W → MinerStep W
  dropped i = record { up = []; back = []; submitted = none; inner = i }

  -- Another channel. `sendable` says whether the request fits a frame.
  unfoldable pub on_open : Bool → ℕ → Option (OpenSpec W) → Inner W → MinerStep W
  unfolding upstream_worker
  on_open sendable member none i = dropped i
  on_open sendable member (some spec) i =
      let up_req = i.next_up_req in
      let i' = record i { next_up_req = next_u32 up_req } in
      if i.translating
      then record (dropped i) { back = open_error (request_id spec) ∷ [] }
      else if sendable
      then record {
        up = request (open_channel spec (upstream_worker i.target.user i.label) up_req) ∷ [];
        back = [];
        submitted = none;
        inner = record i' { pending = insert up_req (member, spec) i'.pending };
      }
      else dropped i'

  abbrev pub submitted_if : Bool → Inner W → MinerStep W
  submitted_if true i =
      record (dropped (record i { submitted_shares = (i.submitted_shares + 1) % 2 ^ 64 })) {
        submitted = order_of i.routing;
      }
  submitted_if false i = dropped i

  unfoldable pub cross : Bool → Frame → Option ℕ → Inner W → MinerStep W
  cross is_submit frame none i = dropped i
  cross is_submit frame (some up_cid) i = record (submitted_if is_submit i) {
    up = frame_for (record frame { payload = rewrite_channel_id up_cid frame.payload }) ∷ [];
  }

  abbrev pub up_of : Option ℕ → Inner W → Option ℕ
  up_of none i = none
  up_of (some down_cid) i = up_for_down down_cid i

  -- A frame for a channel.
  unfoldable pub on_scoped_frame : Bool → Frame → Inner W → MinerStep W
  unfolding cross up_for_down read_channel_id
  on_scoped_frame is_submit frame i =
      cross is_submit frame (up_of (read_channel_id frame.payload) i) i

  -- `asked` is what the frame asks to open, if it can be read.
  unfoldable pub on_miner_frame :
      MessageTypes → OpenTypes → Bool → ℕ → ℕ → Option (OpenSpec W) → Frame → Inner W → MinerStep W
  unfolding is_channel_scoped on_scoped_frame on_open
  on_miner_frame types opens sendable member mt asked frame i =
      if nat_beq mt opens.open_standard || nat_beq mt opens.open_extended
      then on_open sendable member asked i
      else if is_channel_scoped types mt
      then on_scoped_frame
          (nat_beq mt types.submit_shares_standard || nat_beq mt types.submit_shares_extended) frame
          i
      else dropped i

  -- Where the first channel opens; none is a worker that is not registered.
  unfoldable pub first_target :
      Option (Order W) → Option UpstreamTarget → Option (UpstreamTarget × Routing)
  first_target (some o) idle_target = some (o.target, rented o.id)
  first_target none (some target) = some (target, idle)
  first_target none none = none

  abbrev pub fallback_of : Option (Order W) → Option UpstreamTarget
  fallback_of none = none
  fallback_of (some o) = o.fallback

-- What the install of a first upstream sends up and back, whether it succeeded, and the session.
abbrev pub Install : Type 0 → Type 0
Install W = Bool × List (ToUpstream W) × List (Message W) × Inner W

module _ {W : Type 0} ⦃f : Float W⦄ where
  -- A session of one member, nothing installed.
  unfoldable pub fresh_rig : UpstreamTarget → Routing → Option UpstreamTarget → Text → ℕ × Inner W
  unfolding add_member
  fresh_rig target routing default_target worker = add_member (record {
    generation = 0;
    target = target;
    generation_counter = 0;
    channels = [];
    up_to_down = [];
    group_down = [];
    pending = [];
    next_down_cid = 1;
    next_up_req = 1;
    members = [];
    next_member_id = 1;
    routing = routing;
    default_target = default_target;
    hashrate = new 600_000;
    delivered_work = nought;
    accepted_shares = 0;
    submitted_shares = 0;
    accept_low_logged = false;
    label = worker;
    translating = false;
    idle_token = 0;
  })

  unfoldable pub install_sv2_initial :
      Bool → OpenSpec W → Text → UpstreamTarget → Routing → ℕ → Inner W → Install W
  unfolding install_active
  install_sv2_initial sendable spec user target routing member i = (
    sendable,
    if sendable then request (open_channel spec user i.next_up_req) ∷ [] else [],
    [],
    record (install_active 0 target i) {
      routing = routing;
      translating = false;
      next_up_req = next_u32 i.next_up_req;
      pending = insert i.next_up_req (member, spec) i.pending;
    },
  )

module _ {W : Type 0} ⦃f : Float W⦄ (t : Threshold W) where
  abbrev pub answer_of : ℕ → OpenSpec W → Sv1UpConn W → ChannelInfo
  answer_of down_cid spec conn = record {
    request_id = request_id spec;
    up_channel_id = down_cid;
    extranonce_prefix = conn.extranonce1;
    target = target_from_difficulty t conn.initial_diff;
    extranonce_size = conn.extranonce2_size;
    group_channel_id = 0;
  }

  -- The channel is opened here: there is no upstream that would.
  unfoldable pub install_sv1_translate_initial :
      Bool → Sv1UpConn W → OpenSpec W → UpstreamTarget → Routing → ℕ → Inner W → Install W
  unfolding install_active target_from_difficulty
  install_sv1_translate_initial sendable conn spec target routing member i =
      let down_cid = i.next_down_cid in
      let i' = record i { next_down_cid = next_u32 down_cid } in
      if sendable
      then (
        true,
        [],
        open_success spec down_cid 0 (answer_of down_cid spec conn) ∷ [],
        record (install_active i'.generation target i') {
          channels = synthesized down_cid spec conn.initial_diff member ∷ [];
          up_to_down = (down_cid, down_cid) ∷ [];
          group_down = [];
          pending = [];
          routing = routing;
          translating = true;
        },
      )
      else (false, [], [], i')

  unfoldable pub connect_and_install_initial :
      Bool → Answer W → UpstreamTarget → OpenSpec W → Routing → ℕ → Inner W → Install W
  unfolding install_sv2_initial install_sv1_translate_initial
  connect_and_install_initial sendable unreachable target spec routing member i = (false, [], [], i)
  connect_and_install_initial sendable (speaks_sv2 opens) target spec routing member i =
      install_sv2_initial sendable spec (upstream_worker target.user i.label) target routing member
        i
  connect_and_install_initial sendable (not_sv2 none) target spec routing member i =
      (false, [], [], i)
  connect_and_install_initial sendable (not_sv2 (some conn)) target spec routing member i =
      install_sv1_translate_initial sendable conn spec target routing member i

  -- The order's other pool, if the first cannot be had.
  unfoldable pub or_other :
      Bool → Answer W → Option UpstreamTarget → OpenSpec W → Routing → ℕ → Install W → Install W
  unfolding connect_and_install_initial
  or_other sendable answer other spec routing member (true, up, back, i) = (true, up, back, i)
  or_other sendable answer none spec routing member (false, up, back, i) = (false, up, back, i)
  or_other sendable answer (some target) spec routing member (false, up, back, i) =
      connect_and_install_initial sendable answer target spec routing member i

  -- The member and the rig that is built for it, with the answers of the two pools.
  unfoldable pub build_rig :
      Bool
      → Answer W
      → Answer W
      → Option (Order W)
      → Option UpstreamTarget
      → UpstreamTarget × Routing
      → Text
      → OpenSpec W
      → ℕ × Install W
  unfolding fresh_rig or_other
  build_rig sendable first second order idle_target (target, routing) worker spec =
      let (member, i) = fresh_rig target routing idle_target worker in
      (
        member,
        or_other sendable second (fallback_of order) spec routing member
            (connect_and_install_initial sendable first target spec routing member i),
      )
