-- ===== src/Sv2/Frames.antt =====
-- src/proto/sv2/relay.rs, `on_upstream_frame`: what a frame from the upstream does. The readers of
-- the SV2 crates' messages are parameters.
use blitzpool_rental_proxy.Prelude.{
  Text, ℕ, ◌+◌, Bool, true, false, ◌||◌, Option, none, some, List, [], ◌∷◌, ◌++◌, if◌then◌else◌,
  nat_beq, nat_eq,
}
use blitzpool_rental_proxy.Prelude.Dict.{lookup, remove}
use blitzpool_rental_proxy.Prelude.Float.{Float, nought}
use blitzpool_rental_proxy.Session.{Routing, idle, rented}
use blitzpool_rental_proxy.Session.Window.{record_at}
use blitzpool_rental_proxy.Control.{accept_ratio_low}
use blitzpool_rental_proxy.Wire.{
  MessageTypes, is_channel_scoped, read_channel_id, rewrite_channel_id,
}
use blitzpool_rental_proxy.Orders.Store.{find}
use blitzpool_rental_proxy.Sv2.{
  OpenSpec, request_id, is_extended, ChannelInfo, Channel, Inner, Frame, Message, forwarded,
  open_success, open_error,
}
use blitzpool_rental_proxy.Sv2.Channels.{
  next_u32, register_channel, group_recipients, member_sink_for_up, map_group, contains,
}

-- The readers of one message each, and the difficulty of a target.
pub record Codec (W : Type 0) : Type 0 where
  pub types : MessageTypes
  pub parse_open_success : List ℕ → Option ChannelInfo
  pub parse_open_error_request_id : List ℕ → Option ℕ
  pub parse_accepted_count : List ℕ → Option ℕ
  pub parse_set_target : List ℕ → Option (List ℕ)
  pub difficulty_from_target : List ℕ → W

-- A message to a member.
abbrev pub Sent : Type 0 → Type 0
Sent W = ℕ × Message W

-- Work that is credited to an order: id, work, shares.
abbrev pub Credit : Type 0 → Type 0
Credit W = Text × W × ℕ

abbrev pub Step : Type 0 → Type 0
Step W = List (Sent W) × Option (Credit W) × Inner W

module _ {W : Type 0} where
  abbrev pub send_if : Bool → ℕ → Message W → List (Sent W)
  send_if true member m = (member, m) ∷ []
  send_if false member m = []

  unfoldable pub send_all : List ℕ → Message W → List (Sent W)
  send_all [] m = []
  send_all (a ∷ rest) m = (a, m) ∷ send_all rest m

  -- The frame with another channel id.
  abbrev pub readdressed : ℕ → Frame → Message W
  readdressed id frame = forwarded (record frame { payload = rewrite_channel_id id frame.payload })

  -- One write for each downstream group whose member is attached.
  unfoldable pub send_group : List ℕ → Frame → List (ℕ × ℕ) → List (Sent W)
  unfolding contains
  send_group members frame [] = []
  send_group members frame ((down_group_id, member) ∷ rest) =
      send_if (contains member members) member (readdressed down_group_id frame)
      ++ send_group members frame rest

  unfoldable pub to_owner : Option ℕ → ℕ → Frame → List (Sent W)
  to_owner none down_cid frame = []
  to_owner (some member) down_cid frame = (member, readdressed down_cid frame) ∷ []

  unfoldable pub per_channel : ℕ → Frame → Inner W → Option ℕ → List (Sent W)
  unfolding to_owner
  per_channel up_cid frame i none = []
  per_channel up_cid frame i (some down_cid) = to_owner (member_sink_for_up up_cid i) down_cid frame

  -- A group frame goes to the members of that group, any other to the owner of its channel.
  unfoldable pub forward : ℕ → Frame → Inner W → List (Sent W)
  unfolding send_group per_channel
  forward up_cid frame i = elim (group_recipients up_cid i) [
    | [] ↦ per_channel up_cid frame i (lookup up_cid i.up_to_down)
    | r ∷ rest ↦ send_group i.members frame (r ∷ rest)
  ]

  -- The first channel behind `up_cid` gets the new difficulty.
  unfoldable pub retarget : ℕ → W → List (Channel W) → List (Channel W)
  retarget up_cid difficulty [] = []
  retarget up_cid difficulty (c ∷ channels) =
      if nat_beq c.up_channel_id up_cid
      then record c { difficulty = difficulty } ∷ channels
      else c ∷ retarget up_cid difficulty channels

  opened : W → ChannelInfo → ℕ → OpenSpec W → Inner W → Step W
  opened difficulty info member spec i =
      let down_cid = i.next_down_cid in
      let (down_group_id, i') =
        map_group info.group_channel_id (is_extended spec)
          (record i { next_down_cid = next_u32 down_cid }) in
      let i'' =
        register_channel down_cid info.up_channel_id spec difficulty member
          (if is_extended spec then info.group_channel_id else 0) down_group_id i' in
      (
        send_if (contains member i.members) member (open_success spec down_cid down_group_id info),
        none,
        i'',
      )

module _ {W : Type 0} ⦃f : Float W⦄ (c : Codec W) where
  unfoldable pub on_open_success : Frame → Inner W → Step W
  unfolding opened
  on_open_success frame i = elim (c.parse_open_success frame.payload) [
    | none ↦ ([], none, i)
    | some info ↦ elim (lookup info.request_id i.pending) [
      | none ↦ ([], none, i)
      | some (member, spec) ↦
          opened (c.difficulty_from_target info.target) info member spec
            (record i { pending = remove info.request_id i.pending })
    ]
  ]

  reject : Option (ℕ × (ℕ × OpenSpec W)) → Frame → Inner W → Step W
  reject none frame i = (send_all i.members (forwarded frame), none, i)
  reject (some (up_req, (member, spec))) frame i = (
    send_if (contains member i.members) member (open_error (request_id spec)),
    none,
    record i { pending = remove up_req i.pending },
  )

  abbrev asked : Option ℕ → Inner W → Option (ℕ × (ℕ × OpenSpec W))
  asked none i = none
  asked (some up_req) i = elim (lookup up_req i.pending) [ none ↦ none | some p ↦ some (up_req, p) ]

  unfoldable pub on_open_error : Frame → Inner W → Step W
  unfolding reject
  on_open_error frame i = reject (asked (c.parse_open_error_request_id frame.payload) i) frame i

  unfoldable pub on_set_target : ℕ → Frame → Inner W → Inner W
  unfolding retarget
  on_set_target up_cid frame i = elim (c.parse_set_target frame.payload) [
    | none ↦ i
    | some target ↦ record i {
      channels = retarget up_cid (c.difficulty_from_target target) i.channels;
    }
  ]

  abbrev or_zero : Option ℕ → ℕ
  or_zero none = 0
  or_zero (some n) = n

  abbrev pub difficulty_of : Option (Channel W) → W
  difficulty_of none = nought
  difficulty_of (some ch) = ch.difficulty

  abbrev pub order_of : Routing → W → ℕ → Option (Credit W)
  order_of idle work count = none
  order_of (rented order_id) work count = some (order_id, work, count)

  -- The low ratio is remembered once it was logged.
  abbrev pub note_ratio : Inner W → Inner W
  note_ratio i = record i {
    accept_low_logged =
        i.accept_low_logged || accept_ratio_low f i.accepted_shares i.submitted_shares;
  }

  -- Accepted shares count at the difficulty of their channel.
  unfoldable pub on_submit_success : ℕ → ℕ → Frame → Inner W → Option (Credit W) × Inner W
  unfolding find
  on_submit_success now up_cid frame i =
      let count = or_zero (c.parse_accepted_count frame.payload) in
      let difficulty = difficulty_of (find (λ ch. nat_beq ch.up_channel_id up_cid) i.channels) in
      let work = f.mul difficulty (f.of_nat count) in
      if f.lt nought work
      then (
        order_of i.routing work count,
        note_ratio (record i {
          hashrate = record_at now work i.hashrate;
          delivered_work = f.add i.delivered_work work;
          accepted_shares = i.accepted_shares + count;
        }),
      )
      else (none, note_ratio i)

  -- A frame with a channel id: accounting first, then the miners.
  unfoldable pub on_scoped : ℕ → ℕ → ℕ → Frame → Inner W → Step W
  unfolding on_set_target on_submit_success forward
  on_scoped now t up_cid frame i =
      let i' = if nat_beq t c.types.set_target then on_set_target up_cid frame i else i in
      let (credit, i'') =
        if nat_beq t c.types.submit_shares_success
        then on_submit_success now up_cid frame i'
        else (none, i') in
      (forward up_cid frame i'', credit, i'')

  abbrev scoped_frame : ℕ → ℕ → Option ℕ → Frame → Inner W → Step W
  scoped_frame now t none frame i = ([], none, i)
  scoped_frame now t (some up_cid) frame i = on_scoped now t up_cid frame i

  on_type : ℕ → Option ℕ → Frame → Inner W → Step W
  unfolding on_open_success on_open_error on_scoped
  on_type now none frame i = ([], none, i)
  on_type now (some t) frame i =
      if nat_beq t c.types.open_extended_success || nat_beq t c.types.open_standard_success
      then on_open_success frame i
      else if nat_beq t c.types.open_error
      then on_open_error frame i
      else if is_channel_scoped c.types t
      then scoped_frame now t (read_channel_id frame.payload) frame i
      else ([], none, i)

  unfoldable pub on_upstream_frame : ℕ → ℕ → Frame → Inner W → Step W
  unfolding on_type
  on_upstream_frame now generation frame i =
      if nat_beq generation i.generation then on_type now frame.msg_type frame i else ([], none, i)
