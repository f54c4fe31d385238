-- ===== src/Sv2/Translated.antt =====
-- src/proto/sv2/relay.rs: an SV2 session whose upstream is an SV1 pool. The connection is outside; it
-- comes as the handshake left it.
pub mod Lines
use blitzpool_rental_proxy.Prelude.{
  Text, ℕ, ◌+◌, ◌%◌, ◌^◌, Bool, true, false, ◌||◌, Option, none, some, List, [], ◌∷◌, ◌++◌, map,
  if◌then◌else◌, nat_beq, nat_eq,
}
use blitzpool_rental_proxy.Prelude.Float.{Float, nought}
use blitzpool_rental_proxy.Session.{UpstreamTarget, Routing, idle, rented}
use blitzpool_rental_proxy.Session.Window.{record_at}
use blitzpool_rental_proxy.Control.{accept_ratio_low}
use blitzpool_rental_proxy.Orders.Store.{find}
use blitzpool_rental_proxy.Sv2.{
  OpenSpec, is_extended, ChannelInfo, Channel, Inner, set_extranonce_prefix, set_target,
}
use blitzpool_rental_proxy.Sv2.Channels.{contains}
use blitzpool_rental_proxy.Sv2.Frames.{Sent, Codec, Credit, send_if}
use blitzpool_rental_proxy.Sv2.Switch.{install_active, abandon, swap_upstream}
use blitzpool_rental_proxy.Sv2.Sv1Upstream.{
  Sv1UpState, ToMiner, new_target, submit_success, submit_error, note_job, job_frames, take_seq,
}
use blitzpool_rental_proxy.Translate.{Threshold, Notify, Crates, target_from_difficulty}

-- What a handshake with an SV1 pool brings.
pub record Sv1UpConn (W : Type 0) : Type 0 where
  pub extranonce1 : List ℕ
  pub extranonce2_size : ℕ
  pub version_mask : Option ℕ
  pub initial_diff : W

-- How a pool answers the probe for SV2, with what follows.
pub data Answer (W : Type 0) : Type 0 where
  unreachable : Answer W
  -- the opens of the channels
  speaks_sv2 : List (Option ChannelInfo) → Answer W
  -- the SV1 connection that is tried then
  not_sv2 : Option (Sv1UpConn W) → Answer W

module _ {W : Type 0} where
  unfoldable pub fresh_state : Text → OpenSpec W → Sv1UpConn W → Sv1UpState
  fresh_state user_name spec conn = record {
    version_mask = conn.version_mask;
    user_name = user_name;
    extended = is_extended spec;
    extranonce1 = conn.extranonce1;
    extranonce2_size = conn.extranonce2_size;
    next_extranonce2 = 0;
    next_job_id = 1;
    job_map = [];
    next_submit_id = 1;
    submit_seq = [];
    first_job_sent = false;
  }

  abbrev pub synthesized : ℕ → OpenSpec W → W → ℕ → Channel W
  synthesized down_cid spec difficulty owner = record {
    down_channel_id = down_cid;
    up_channel_id = down_cid;
    spec = spec;
    difficulty = difficulty;
    owner = owner;
    up_group_id = 0;
    down_group_id = 0;
  }

  unfoldable pub install_translated :
      UpstreamTarget → Routing → ℕ → Channel W → Sv1UpConn W → Inner W → Inner W
  unfolding install_active
  install_translated target routing generation ch conn i =
      record (install_active generation target i) {
        channels = synthesized ch.down_channel_id ch.spec conn.initial_diff ch.owner ∷ [];
        up_to_down = (ch.down_channel_id, ch.down_channel_id) ∷ [];
        group_down = [];
        pending = [];
        routing = routing;
        translating = true;
      }

module _ {W : Type 0} ⦃f : Float W⦄ (t : Threshold W) where
  -- What the owner of the channel is told.
  abbrev pub repoint_owner : Channel W → Sv1UpConn W → List ℕ → List (Sent W)
  repoint_owner ch conn members =
      send_if (contains ch.owner members) ch.owner
        (set_extranonce_prefix ch.down_channel_id conn.extranonce1)
      ++ send_if (contains ch.owner members) ch.owner
          (set_target ch.down_channel_id (target_from_difficulty t conn.initial_diff))

  unfoldable pub swap_first :
      UpstreamTarget
      → Routing
      → Option (Sv1UpConn W)
      → List (Channel W)
      → Inner W
      → Option (List (Sent W)) × Inner W
  unfolding install_translated abandon
  swap_first target routing conn [] i = (none, i)
  swap_first target routing none (ch ∷ rest) i = (none, i)
  swap_first target routing (some conn) (ch ∷ rest) i = (
    some (repoint_owner ch conn i.members ++ abandon i.members i.pending),
    install_translated target routing i.generation_counter ch conn i,
  )

  -- The first channel moves onto the SV1 pool. The caller has raised the counter of generations.
  unfoldable pub swap_to_sv1_translate :
      UpstreamTarget → Routing → Option (Sv1UpConn W) → Inner W → Option (List (Sent W)) × Inner W
  unfolding swap_first
  swap_to_sv1_translate target routing conn i = swap_first target routing conn i.channels i

  abbrev pub next_generation : Inner W → Inner W
  next_generation i = record i { generation_counter = (i.generation_counter + 1) % 2 ^ 64 }

  -- A switch, whatever the pool answers. None as a result is a switch that failed.
  unfoldable pub swap_answered :
      Codec W → UpstreamTarget → Routing → Answer W → Inner W → Option (List (Sent W)) × Inner W
  unfolding swap_to_sv1_translate
  swap_answered c target routing unreachable i = (none, next_generation i)
  swap_answered c target routing (speaks_sv2 opens) i = swap_upstream c target routing opens i
  swap_answered c target routing (not_sv2 conn) i =
      swap_to_sv1_translate target routing conn (next_generation i)

-- A line of the pool, as the code reads it.
pub data Sv1Line (W : Type 0) : Type 0 where
  notify : Notify → Sv1Line W
  set_difficulty : W → Sv1Line W
  -- the id as a number, and whether the result is the JSON value `true`
  response : Option ℕ → Bool → Sv1Line W
  ignored : Sv1Line W

module _ {W : Type 0} where
  -- The first member gets the frames of the current upstream.
  unfoldable pub send_translate_frames : ℕ → List ToMiner → Inner W → List (ℕ × ToMiner)
  send_translate_frames generation frames i =
      if nat_beq generation i.generation then to_first i.members else []
    where
      to_first : List ℕ → List (ℕ × ToMiner)
      to_first [] = []
      to_first (member ∷ rest) = map (λ frame. (member, frame)) frames

  -- The first channel with the id.
  unfoldable pub set_first_difficulty : ℕ → W → List (Channel W) → List (Channel W)
  set_first_difficulty down_cid diff [] = []
  set_first_difficulty down_cid diff (ch ∷ rest) =
      if nat_beq ch.down_channel_id down_cid
      then record ch { difficulty = diff } ∷ rest
      else ch ∷ set_first_difficulty down_cid diff rest

  unfoldable pub set_translate_diff : ℕ → ℕ → W → Inner W → Inner W
  unfolding set_first_difficulty
  set_translate_diff generation down_cid diff i =
      if nat_beq generation i.generation
      then record i { channels = set_first_difficulty down_cid diff i.channels }
      else i

  abbrev pub credit_of : Routing → W → Option (Credit W)
  credit_of idle work = none
  credit_of (rented order_id) work = some (order_id, work, 1)

module _ {W : Type 0} ⦃f : Float W⦄ where
  abbrev pub work_of : Option (Channel W) → W
  work_of none = nought
  work_of (some ch) = ch.difficulty

  abbrev pub low_logged : Inner W → Inner W
  low_logged i = record i {
    accept_low_logged =
        i.accept_low_logged || accept_ratio_low f i.accepted_shares i.submitted_shares;
  }

  unfoldable pub credit_translate : ℕ → ℕ → ℕ → Inner W → Option (Credit W) × Inner W
  unfolding find
  credit_translate now generation down_cid i =
      let work = work_of (find (λ ch. nat_beq ch.down_channel_id down_cid) i.channels) in
      if nat_beq generation i.generation
      then if f.lt nought work
        then (
          credit_of i.routing work,
          low_logged (record i {
            hashrate = record_at now work i.hashrate;
            delivered_work = f.add i.delivered_work work;
            accepted_shares = (i.accepted_shares + 1) % 2 ^ 64;
          }),
        )
        else (none, low_logged i)
      else (none, i)

-- What a line sends to the miner, credits, and leaves behind.
abbrev pub LineStep : Type 0 → Type 0
LineStep W = List (ℕ × ToMiner) × Option (Credit W) × Inner W × Sv1UpState

module _ {W : Type 0} ⦃f : Float W⦄ (t : Threshold W) (c : Crates) where
  -- The answer to a submit whose sequence number was kept.
  unfoldable pub on_answer : ℕ → ℕ → ℕ → Option ℕ → Bool → Inner W → Sv1UpState → LineStep W
  on_answer now generation down_cid none accepted i s = ([], none, i, s)
  on_answer now generation down_cid (some seq) true i s =
      let (credit, i') = credit_translate now generation down_cid i in
      (send_translate_frames generation (submit_success down_cid seq ∷ []) i', credit, i', s)
  on_answer now generation down_cid (some seq) false i s =
      (send_translate_frames generation (submit_error down_cid seq ∷ []) i, none, i, s)

  unfoldable pub handle_sv1_line : ℕ → ℕ → ℕ → Sv1Line W → Inner W → Sv1UpState → LineStep W
  unfolding on_answer set_translate_diff
  handle_sv1_line now generation down_cid (notify n) i s =
      (send_translate_frames generation (job_frames c down_cid n s) i, none, i, note_job n s)
  handle_sv1_line now generation down_cid (set_difficulty diff) i s =
      let i' = set_translate_diff generation down_cid diff i in
      (
        send_translate_frames generation (new_target down_cid (target_from_difficulty t diff) ∷ [])
            i',
        none,
        i',
        s,
      )
  handle_sv1_line now generation down_cid (response none accepted) i s = ([], none, i, s)
  handle_sv1_line now generation down_cid (response (some id) accepted) i s =
      let (seq, s') = take_seq id s in on_answer now generation down_cid seq accepted i s'
  handle_sv1_line now generation down_cid ignored i s = ([], none, i, s)
