-- ===== src/Relay.antt =====
-- src/proto/relay.rs: a session of one SV1 miner, what it does with a line from the upstream and with
-- a line from the miner, and the install of another upstream. The sockets, the tasks that serve them
-- and the JSON of a line are outside: a message is what the handlers read of it.
pub mod Shares
pub mod Bounds
pub mod Translator
use blitzpool_rental_proxy.Prelude.{
  Text, ℕ, ◌+◌, ◌%◌, ◌^◌, Bool, true, false, ◌&&◌, ◌||◌, Option, none, some, List, [], ◌∷◌, ◌++◌,
  if◌then◌else◌, nat_beq, leb, ◌==◌, text_eq,
}
use blitzpool_rental_proxy.Prelude.Strings.{codes}
use blitzpool_rental_proxy.Prelude.Dict.{Dict, lookup, insert, remove}
use blitzpool_rental_proxy.Prelude.Float.{Float, nought}
use blitzpool_rental_proxy.Session.{UpstreamTarget, Routing, idle, rented}
use blitzpool_rental_proxy.Session.Window.{HashrateWindow, record_at}
use blitzpool_rental_proxy.Control.{accept_ratio_low}
use blitzpool_rental_proxy.Sv2.Channels.{upstream_worker}

pub record RpcMessage (W : Type 0) : Type 0 where
  -- `id_key` of the id
  pub id : Text
  pub method : Option Text
  -- the first parameter, as a number, and as it stands (a text, or the JSON of another value)
  pub first_number : Option W
  pub first_param : Option Text
  -- the result is the JSON value `true`
  pub result_true : Bool

-- `Inner`, with its active upstream, and without the handles of its tasks.
pub record Inner (W : Type 0) : Type 0 where
  pub generation : ℕ
  pub target : UpstreamTarget
  pub generation_counter : ℕ
  pub routing : Routing
  pub current_difficulty : W
  -- a submit that waits for its response: the generation and the difficulty it was sent under
  pub pending : Dict Text (ℕ × W)
  pub extranonce_capable : Bool
  pub configure : Option (RpcMessage W)
  pub hashrate : HashrateWindow W
  pub delivered_work : W
  pub accepted_shares : ℕ
  pub submitted_shares : ℕ
  pub accept_low_logged : Bool
  pub label : Text
  pub translating : Bool
  pub extranonce1 : Text
  pub extranonce2_size : ℕ
  pub pending_prelude : List Text
  pub subscribed : Bool

-- What a connection to a new upstream brings.
pub data RawUpstream (W : Type 0) : Type 0 where
  -- extranonce1, extranonce2_size, the lines that came before the install
  raw_sv1 : Text → ℕ → List Text → RawUpstream W
  -- extranonce1, extranonce2_size, the initial difficulty and its line
  raw_sv2 : Text → ℕ → W → Text → RawUpstream W

-- Work that is credited to an order: id, work, shares.
abbrev pub Credit : Type 0 → Type 0
Credit W = Text × W × ℕ

abbrev pub order_of : Routing → Option Text
order_of idle = none
order_of (rented order_id) = some order_id

abbrev pub replace_first : Text → Option Text → Option Text
replace_first name none = none
replace_first name (some old) = some name

module _ {W : Type 0} where
  abbrev pub order_credit : Routing → W → ℕ → Option (Credit W)
  order_credit idle work count = none
  order_credit (rented order_id) work count = some (order_id, work, count)

  abbrev pub or_keep : Option W → W → W
  or_keep none d = d
  or_keep (some e) d = e

  -- mining.submit, before it is sent on.
  unfoldable pub note_submit : RpcMessage W → Inner W → Inner W
  note_submit msg i = record i {
    pending =
        if i.translating
        then i.pending
        else insert msg.id (i.generation, i.current_difficulty) i.pending;
    submitted_shares = i.submitted_shares + 1;
  }

  unfoldable pub by_method :
      Text → RpcMessage W → Inner W → Option (RpcMessage W) × Option Text × Inner W
  unfolding note_submit
  by_method method msg i =
      if method == codes "mining.authorize"
      then (none, none, i)
      else if method == codes "mining.submit"
      then (
        some (record msg {
          first_param = replace_first (upstream_worker i.target.user i.label) msg.first_param;
        }),
        order_of i.routing,
        note_submit msg i,
      )
      else if method == codes "mining.extranonce.subscribe"
      then (some msg, none, record i { extranonce_capable = true })
      else if method == codes "mining.configure"
      then (some msg, none, record i { configure = some msg })
      else (some msg, none, i)

  abbrev pub on_method :
      Option Text → RpcMessage W → Inner W → Option (RpcMessage W) × Option Text × Inner W
  on_method none msg i = (some msg, none, i)
  on_method (some method) msg i = by_method method msg i

  -- The line for the upstream, the order that a share was submitted for, and the new state.
  unfoldable pub on_miner_msg :
      RpcMessage W → Inner W → Option (RpcMessage W) × Option Text × Inner W
  unfolding by_method
  on_miner_msg msg i = on_method msg.method msg i

  unfoldable pub install_raw : RawUpstream W → ℕ → UpstreamTarget → Routing → Inner W → Inner W
  install_raw (raw_sv1 en1 en2 prelude) generation target routing i = record i {
    generation = generation;
    target = target;
    routing = routing;
    extranonce1 = en1;
    extranonce2_size = en2;
    translating = false;
    pending = [];
    pending_prelude = prelude;
  }
  install_raw (raw_sv2 en1 en2 diff line) generation target routing i = record i {
    generation = generation;
    target = target;
    routing = routing;
    extranonce1 = en1;
    extranonce2_size = en2;
    translating = true;
    current_difficulty = diff;
    pending = [];
    pending_prelude = line ∷ [];
  }

  -- A switch whose connection, `raw`, may fail; nothing else comes in between. The lines to the miner
  -- are not part of it. The Bool says that the miner has to reconnect.
  unfoldable pub swap_upstream :
      UpstreamTarget → Routing → Option (RawUpstream W) → Inner W → Option Bool × Inner W
  unfolding install_raw
  swap_upstream target routing raw i =
      let i' = record i { generation_counter = (i.generation_counter + 1) % 2 ^ 64 } in
      elim raw [
        | none ↦ (none, i')
        | some up ↦ (
          some (if i.extranonce_capable then false else true),
          record (install_raw up i'.generation_counter target routing i') { pending_prelude = [] },
        )
      ]

  -- The line goes to the miner, or waits until it subscribed.
  unfoldable pub send_or_stash : ℕ → Text → Inner W → Option Text × Inner W
  send_or_stash generation line i =
      if nat_beq generation i.generation
      then if i.subscribed
        then (some line, i)
        else (none, record i { pending_prelude = i.pending_prelude ++ line ∷ [] })
      else (none, i)

  unfoldable pub set_translate_difficulty : ℕ → W → Inner W → Bool × Inner W
  set_translate_difficulty generation diff i =
      if nat_beq generation i.generation
      then (true, record i { current_difficulty = diff })
      else (false, i)

-- The submits that an SV2 upstream answered, up to a sequence number.
unfoldable pub drain_acked : {A : Type 0} → List (ℕ × A) → ℕ → List A × List (ℕ × A)
drain_acked [] last_seq = ([], [])
drain_acked ((seq, id) ∷ q) last_seq =
    let (out, rest) = drain_acked q last_seq in
    if leb seq last_seq then (id ∷ out, rest) else ([], (seq, id) ∷ q)

unfoldable pub remove_seq : {A : Type 0} → List (ℕ × A) → ℕ → Option A × List (ℕ × A)
remove_seq [] seq = (none, [])
remove_seq ((s, id) ∷ q) seq =
    let (found, rest) = remove_seq q seq in
    if nat_beq s seq then (some id, q) else (found, (s, id) ∷ rest)

module _ {W : Type 0} ⦃f : Float W⦄ where
  abbrev pub note_ratio : Inner W → Inner W
  note_ratio i = record i {
    accept_low_logged =
        i.accept_low_logged || accept_ratio_low f i.accepted_shares i.submitted_shares;
  }

  -- The response to a submit that was taken off `pending`.
  unfoldable pub settle :
      ℕ → ℕ → RpcMessage W → Option (ℕ × W) → Inner W → Option (Credit W) × Inner W
  settle now generation msg none i = (none, i)
  settle now generation msg (some (g, diff)) i =
      if nat_beq g generation && msg.result_true
      then (
        order_credit i.routing diff 1,
        record i {
          hashrate = record_at now diff i.hashrate;
          delivered_work = f.add i.delivered_work diff;
          accepted_shares = i.accepted_shares + 1;
        },
      )
      else (none, i)

  unfoldable pub on_response : ℕ → ℕ → RpcMessage W → Inner W → Option (Credit W) × Inner W
  unfolding settle
  on_response now generation msg i =
      let (credit, i') =
        settle now generation msg (lookup msg.id i.pending)
          (record i { pending = remove msg.id i.pending }) in
      (credit, note_ratio i')

  unfoldable pub on_line :
      ℕ → ℕ → RpcMessage W → Option Text → Inner W → Option (Credit W) × Inner W
  unfolding on_response
  on_line now generation msg none i = on_response now generation msg i
  on_line now generation msg (some method) i = (
    none,
    if method == codes "mining.set_difficulty"
        then record i { current_difficulty = or_keep msg.first_number i.current_difficulty }
        else i,
  )

  -- The line for the miner, what an order is credited with, and the new state.
  abbrev with_line :
      RpcMessage W
      → Option (Credit W) × Inner W
      → Option (RpcMessage W) × Option (Credit W) × Inner W
  with_line msg (credit, i) = (some msg, credit, i)

  unfoldable pub on_upstream_msg :
      ℕ → ℕ → RpcMessage W → Inner W → Option (RpcMessage W) × Option (Credit W) × Inner W
  unfolding on_line
  on_upstream_msg now generation msg i =
      if nat_beq generation i.generation
      then with_line msg (on_line now generation msg msg.method i)
      else (none, none, i)

  -- Shares that an SV2 upstream accepted for the translated miner.
  unfoldable pub credit_translate_accepted : ℕ → ℕ → ℕ → Inner W → Option (Credit W) × Inner W
  credit_translate_accepted now generation count i =
      let work = f.mul i.current_difficulty (f.of_nat count) in
      if nat_beq generation i.generation
      then if f.lt nought work
        then (
          order_credit i.routing work count,
          note_ratio (record i {
            hashrate = record_at now work i.hashrate;
            delivered_work = f.add i.delivered_work work;
            accepted_shares = i.accepted_shares + count;
          }),
        )
        else (none, note_ratio i)
      else (none, i)
