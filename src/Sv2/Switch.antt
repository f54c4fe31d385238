-- ===== src/Sv2/Switch.antt =====
-- src/proto/sv2/relay.rs, `swap_upstream`: the session moves to another SV2 upstream. The connection
-- and the opens of the channels are outside: `opens` holds the answer to each, in the order of the
-- channels, and `none` is an open that failed.
use blitzpool_rental_proxy.Prelude.{
  ℕ, ◌+◌, ◌%◌, ◌^◌, false, Option, none, some, List, [], ◌∷◌, ◌++◌, if◌then◌else◌, nat_beq, nat_eq,
}
use blitzpool_rental_proxy.Prelude.Dict.{Dict, insert}
use blitzpool_rental_proxy.Session.{UpstreamTarget, Routing}
use blitzpool_rental_proxy.Sv2.{
  OpenSpec, is_extended, ChannelInfo, Channel, Inner, open_error, set_extranonce_prefix, set_target,
}
use blitzpool_rental_proxy.Sv2.Channels.{contains}
use blitzpool_rental_proxy.Sv2.Frames.{Sent, Codec, send_if}

-- What the loop over the channels builds.
pub record Reopened (W : Type 0) : Type 0 where
  pub new_channels : List (Channel W)
  pub up_to_down : Dict ℕ ℕ
  pub group_down : Dict ℕ ℕ
  -- downstream channel id, owner, the upstream's answer
  pub repoint : List (ℕ × (ℕ × ChannelInfo))

module _ {W : Type 0} where
  -- The members that waited for an open are told, under the id that the open is kept by.
  unfoldable pub abandon : List ℕ → Dict ℕ (ℕ × OpenSpec W) → List (Sent W)
  abandon members [] = []
  abandon members ((up_req, (member, spec)) ∷ pending) =
      send_if (contains member members) member (open_error up_req) ++ abandon members pending

  -- The new upstream is in place.
  unfoldable pub install_active : ℕ → UpstreamTarget → Inner W → Inner W
  install_active generation target i = record i { generation = generation; target = target }

module _ {W : Type 0} (c : Codec W) where
  abbrev pub up_group : OpenSpec W → ChannelInfo → ℕ
  up_group spec info = if is_extended spec then info.group_channel_id else 0

  abbrev pub reopened_channel : Channel W → ChannelInfo → Channel W
  reopened_channel ch info = record {
    down_channel_id = ch.down_channel_id;
    up_channel_id = info.up_channel_id;
    spec = ch.spec;
    difficulty = c.difficulty_from_target info.target;
    owner = ch.owner;
    up_group_id = up_group ch.spec info;
    down_group_id = ch.down_group_id;
  }

  abbrev pub remap_group : ℕ → ℕ → Dict ℕ ℕ → Dict ℕ ℕ
  remap_group up_group_id down_group_id groups =
      if nat_beq up_group_id 0
      then groups
      else if nat_beq down_group_id 0
      then groups
      else insert up_group_id down_group_id groups

  -- One turn of the loop.
  unfoldable pub reopen_one : Channel W → ChannelInfo → Reopened W → Reopened W
  reopen_one ch info r = record {
    new_channels = r.new_channels ++ reopened_channel ch info ∷ [];
    up_to_down = insert info.up_channel_id ch.down_channel_id r.up_to_down;
    group_down = remap_group (up_group ch.spec info) ch.down_group_id r.group_down;
    repoint = r.repoint ++ (ch.down_channel_id, (ch.owner, info)) ∷ [];
  }

  -- The loop; the first open that fails ends the switch.
  unfoldable pub reopen :
      List (Channel W) → List (Option ChannelInfo) → Reopened W → Option (Reopened W)
  unfolding reopen_one
  reopen [] opens r = some r
  reopen (ch ∷ channels) [] r = none
  reopen (ch ∷ channels) (none ∷ opens) r = none
  reopen (ch ∷ channels) (some info ∷ opens) r = reopen channels opens (reopen_one ch info r)

  abbrev pub nothing_reopened : Reopened W
  nothing_reopened = record { new_channels = []; up_to_down = []; group_down = []; repoint = [] }

  -- Each channel's owner learns the new extranonce prefix and target.
  unfoldable pub repoint_all : List ℕ → List (ℕ × (ℕ × ChannelInfo)) → List (Sent W)
  repoint_all members [] = []
  repoint_all members ((down_cid, (owner, info)) ∷ rest) =
      send_if (contains owner members) owner (set_extranonce_prefix down_cid info.extranonce_prefix)
      ++ send_if (contains owner members) owner (set_target down_cid info.target)
      ++ repoint_all members rest

  unfoldable pub finish :
      UpstreamTarget → Routing → Inner W → Option (Reopened W) → Option (List (Sent W)) × Inner W
  unfolding install_active repoint_all abandon
  finish target routing i none = (none, i)
  finish target routing i (some r) = (
    some (repoint_all i.members r.repoint ++ abandon i.members i.pending),
    record (install_active i.generation_counter target i) {
      channels = r.new_channels;
      up_to_down = r.up_to_down;
      group_down = r.group_down;
      pending = [];
      routing = routing;
      translating = false;
    },
  )

  -- A switch to an upstream that answers as SV2, while no other event comes in between. None as a
  -- result is a switch that failed.
  unfoldable pub swap_upstream :
      UpstreamTarget
      → Routing
      → List (Option ChannelInfo)
      → Inner W
      → Option (List (Sent W)) × Inner W
  unfolding reopen finish
  swap_upstream target routing opens i =
      let i' = record i { generation_counter = (i.generation_counter + 1) % 2 ^ 64 } in
      finish target routing i' (reopen i'.channels opens nothing_reopened)
