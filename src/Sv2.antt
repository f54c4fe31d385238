-- ===== src/Sv2.antt =====
-- src/proto/sv2/relay.rs: a rig behind one SV2 upstream: its channels, its members (the miners'
-- connections) and its share accounting. The operations and their proofs are the modules below.
pub mod Channels
pub mod Frames
pub mod Switch
pub mod Continuity
pub mod Groups
pub mod Forwarding
pub mod Members
pub mod Stale
pub mod Abandoned
pub mod Rigs
pub mod Sv1Upstream
pub mod Translated
pub mod Miner
use blitzpool_rental_proxy.Prelude.{Text, ℕ, Bool, true, false, List, Option}
use blitzpool_rental_proxy.Prelude.Dict.{Dict}
use blitzpool_rental_proxy.Session.{UpstreamTarget, Routing}
use blitzpool_rental_proxy.Session.Window.{HashrateWindow}

-- A miner's request to open a channel.
pub data OpenSpec (W : Type 0) : Type 0 where
  -- request_id, nominal_hash_rate, max_target
  standard : ℕ → W → List ℕ → OpenSpec W
  -- and min_extranonce_size
  extended : ℕ → W → List ℕ → ℕ → OpenSpec W

module _ {W : Type 0} where
  abbrev pub request_id : OpenSpec W → ℕ
  request_id (standard id rate target) = id
  request_id (extended id rate target size) = id

  abbrev pub is_extended : OpenSpec W → Bool
  is_extended (standard id rate target) = false
  is_extended (extended id rate target size) = true

-- What an upstream answers to a successful open.
pub record ChannelInfo : Type 0 where
  pub request_id : ℕ
  pub up_channel_id : ℕ
  pub extranonce_prefix : List ℕ
  pub target : List ℕ
  pub extranonce_size : ℕ
  pub group_channel_id : ℕ

pub record Channel (W : Type 0) : Type 0 where
  pub down_channel_id : ℕ
  pub up_channel_id : ℕ
  pub spec : OpenSpec W
  pub difficulty : W
  pub owner : ℕ
  -- 0 is no group
  pub up_group_id : ℕ
  pub down_group_id : ℕ

-- `Inner`, without the handles of its tasks. The members are known by their ids; what is sent to one
-- is a result of each operation.
pub record Inner (W : Type 0) : Type 0 where
  pub generation : ℕ
  pub target : UpstreamTarget
  pub generation_counter : ℕ
  pub channels : List (Channel W)
  pub up_to_down : Dict ℕ ℕ
  pub group_down : Dict ℕ ℕ
  pub pending : Dict ℕ (ℕ × OpenSpec W)
  pub next_down_cid : ℕ
  pub next_up_req : ℕ
  pub members : List ℕ
  pub next_member_id : ℕ
  pub routing : Routing
  pub default_target : Option UpstreamTarget
  pub hashrate : HashrateWindow W
  pub delivered_work : W
  pub accepted_shares : ℕ
  pub submitted_shares : ℕ
  pub accept_low_logged : Bool
  pub label : Text
  pub translating : Bool
  -- the number of the round in which the rig ran empty
  pub idle_token : ℕ

-- A frame as it comes from an upstream.
pub record Frame : Type 0 where
  pub msg_type : Option ℕ
  pub payload : List ℕ

-- What goes to a member.
pub data Message (W : Type 0) : Type 0 where
  -- an upstream frame, its channel id rewritten
  forwarded : Frame → Message W
  -- spec, downstream channel id, downstream group id, the upstream's answer
  open_success : OpenSpec W → ℕ → ℕ → ChannelInfo → Message W
  -- request id
  open_error : ℕ → Message W
  set_extranonce_prefix : ℕ → List ℕ → Message W
  set_target : ℕ → List ℕ → Message W

-- What goes to the upstream.
pub data Request (W : Type 0) : Type 0 where
  -- the spec, the account, the proxy's request id
  open_channel : OpenSpec W → Text → ℕ → Request W
  close_channel : ℕ → Request W
