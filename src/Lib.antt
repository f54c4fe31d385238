-- ===== src/Lib.antt =====
-- blitzpool-rental-proxy: a proxy between the miners of rented rigs and mining pools. A rig mines on
-- its seller's pool until a buyer rents it; then its hashrate goes to the buyer's pool until the
-- rental ends, and the delivered work is billed.
--
-- The parts, and the files that model them:
--   src/session.rs            Session.antt: where a session mines; Session/PoolUrl: the rule for pool
--                             addresses; Session/Window: the rolling hashrate
--   src/control.rs            Control.antt: what the rest of the proxy sees of a session
--   src/registry.rs           Registry.antt: the live sessions by rig
--   src/orders.rs             Orders.antt: an order and its cost; Orders/Row: its database row;
--                             Orders/Store: `OrderStore`; Orders/Expiry: a round of `spawn_expiry`
--   src/store.rs              Sellers.antt: the registered rigs
--   src/hashrate.rs           Hashrate.antt: the history of a rig's hashrate
--   src/api.rs                Api/Requests: the requests that change rigs and orders;
--                             Api/Access: the bearer token;
--                             Api/History: the chart of a rig
--   src/proto/relay.rs        Relay.antt: a session of an SV1 miner; Relay/Translator: the two
--                             tasks between such a miner and an SV2 pool
--   src/proto/sv2/relay.rs    Sv2.antt: a rig behind one SV2 upstream; Sv2/Channels: its channels and
--                             members; Sv2/Frames: `on_upstream_frame`; Sv2/Switch: `swap_upstream`
--                             Sv2/Translated: the switch onto an SV1 pool and its lines;
--                             Sv2/Sv1Upstream: jobs and shares behind such a pool; Sv2/Miner: the build
--                             of a rig and the frames of its miners
--   src/proto/relay.rs        Handshake.antt: an SV1 miner's connect and authorize
--   both relays               Connect.antt: the handshake with an SV1 pool
--   both relays               Supervise.antt: the switch onto an order, the supervisor and the retry
--   src/proto/translate.rs    Translate.antt: targets, jobs and submits in the other protocol's words
--   src/proto/sv2/relay/registry.rs   Sv2/Rigs: the rig that a worker's next miner joins
--   src/proto/sv2/wire.rs     Wire.antt: the channel id of a frame
--   src/proto/detect.rs, src/config.rs   Detect.antt: the choice of the protocol
-- The other modules of each part hold its proofs, Examples its tests, and Prelude what all share.
--
-- How the parts meet: the API reads the registry and the rigs and writes the orders; the relays ask
-- the orders for a rig's live rental when its miner connects, credit accepted work to it, and are told
-- to reconnect when it starts or ends.
--
-- State is passed explicitly: an operation takes the state and returns what it sends, what it credits
-- and the next state. A call of SQLite is a function of the table, with a Bool for whether the database
-- answers. Supervise is written over an interface (`Switchable`), which the SV1 and the SV2 session
-- fill and whose laws both keep; a loop that waits runs over a list of rounds, each with what a
-- connection answers and what changed while the loop slept. Elsewhere an `await` between two locks is not
-- modelled as an interleaving, and the switch of an upstream runs as one step. Sessions and members are
-- known by numbers.
--
-- Numbers: texts are lists of code points; `i64` is the type ℤ, and the casts between it and `u64` are
-- written out; counters that wrap in practice (`u32` ids, the order counter, the generation) keep their
-- `%`; the share counters of 64 bits are not bounded. `f64` is an interface (Prelude/Float): no theorem
-- uses a law of its arithmetic, and the target of a whole difficulty supposes only that `f64` is exact there
-- (`WholeAt`). There is no fuel but in the printing of decimals, where one round more
-- than the number itself is enough, which the proof that a number reads back from its digits shows.
--
-- Not modelled: sockets, tasks, JSON and the SQLite driver; the message crates of SV2, whose readers are
-- a parameter (`Codec`), as are what the crates' types take in and the merkle root (`Crates`) and 256-bit
-- targets (`Threshold`) and the lines (`Lines`); the handshake with an SV2 pool, `list_for_seller`,
-- and the other listings of the API.
pub mod Prelude
pub mod Session
pub mod Connect
pub mod Control
pub mod Registry
pub mod Orders
pub mod Translate
pub mod Wire
pub mod Supervise
pub mod Sv2
pub mod Relay
pub mod Handshake
pub mod Hashrate
pub mod Detect
pub mod Sellers
pub mod Api
pub mod Examples
