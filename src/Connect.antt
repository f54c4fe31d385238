-- ===== src/Connect.antt =====
-- src/proto/relay.rs, src/proto/sv2/relay.rs: the handshake of either relay with an SV1 pool, from the
-- lines that the pool sends. A write that fails ends it.
pub mod Kept
use blitzpool_rental_proxy.Prelude.{
  Text, ℕ, ◌%◌, ◌^◌, Bool, true, false, Option, none, some, List, [], ◌∷◌, ◌++◌, Result, ok, err,
  ◌>>=◌, if◌then◌else◌,
}
use mathlib.Core.List.{reverse}
use blitzpool_rental_proxy.Prelude.Strings.{codes}
use blitzpool_rental_proxy.Prelude.Float.{Float}
use blitzpool_rental_proxy.Sv2.Translated.{Sv1UpConn}
use blitzpool_rental_proxy.Translate.{version_rolling_mask}

-- What is read of a response.
pub record Reply : Type 0 where
  -- the second and third entry of a result of at least three, if they are a text and a number
  pub subscribed : Option (Text × ℕ)
  pub rolls_version : Bool
  -- the mask, if it reads as a hexadecimal u32
  pub mask : Option ℕ

-- A line of the pool, trimmed.
pub data Heard : Type 0 where
  blank : Heard
  -- not JSON
  garbled : Heard
  notice : Text → Heard
  reply : Reply → Heard

pub data ConnectError : Type 0 where
  closed : ConnectError
  not_sent : ConnectError
  bad_subscribe : ConnectError
  bad_extranonce : ConnectError

-- Which of the requests can be written.
pub record Writes : Type 0 where
  pub configure : Bool
  pub subscribe : Bool
  pub authorize : Bool

abbrev pub newline_after : Text → Text
newline_after line = line ++ codes "\n"

-- The response, the notifications so far, and the lines that are not read yet.
unfoldable pub read_response :
    List Heard → List Text → Result ConnectError (Reply × List Text × List Heard)
read_response [] prelude = err closed
read_response (blank ∷ lines) prelude = read_response lines prelude
read_response (garbled ∷ lines) prelude = read_response lines prelude
read_response (notice line ∷ lines) prelude =
    read_response lines (prelude ++ newline_after line ∷ [])
read_response (reply r ∷ lines) prelude = ok (r, prelude, lines)

unfoldable pub request :
    Bool → List Heard → List Text → Result ConnectError (Reply × List Text × List Heard)
unfolding read_response
request true lines prelude = read_response lines prelude
request false lines prelude = err not_sent

abbrev pub extranonce_of : ℕ → Option (Text × ℕ) → Result ConnectError (Text × ℕ)
extranonce_of bits none = err bad_subscribe
extranonce_of bits (some (en1, en2)) = ok (en1, en2 % 2 ^ bits)

-- `UpstreamConn`, with the lines that its reader goes on with.
pub record UpstreamConn : Type 0 where
  pub extranonce1 : Text
  pub extranonce2_size : ℕ
  pub prelude : List Text
  pub unread : List Heard

unfoldable pub subscribe_and_authorize :
    Writes → List Text → List Heard → Result ConnectError UpstreamConn
unfolding request
subscribe_and_authorize w prelude lines =
    request w.subscribe lines prelude >>= λ (sub, prelude1, lines1).
    extranonce_of 32 sub.subscribed >>= λ (en1, en2).
    request w.authorize lines1 prelude1 >>= λ (auth, prelude2, lines2).
    ok (record { extranonce1 = en1; extranonce2_size = en2; prelude = prelude2; unread = lines2 })

-- With the miner's configure to replay or without.
unfoldable pub connect_upstream : Bool → Writes → List Heard → Result ConnectError UpstreamConn
unfolding subscribe_and_authorize
connect_upstream false w lines = subscribe_and_authorize w [] lines
connect_upstream true w lines = request w.configure lines [] >>= λ (cfg, prelude, lines').
    subscribe_and_authorize w prelude lines'

abbrev pub mask_or_ours : Option ℕ → ℕ
mask_or_ours none = version_rolling_mask
mask_or_ours (some mask) = mask

unfoldable pub parse_version_mask : Reply → Option ℕ
parse_version_mask r = if r.rolls_version then some (mask_or_ours r.mask) else none

module _ {W : Type 0} where
  -- The first difficulty that a list of lines sets.
  unfoldable pub first_difficulty : (Text → Option W) → W → List Text → W
  first_difficulty read otherwise [] = otherwise
  first_difficulty read otherwise (line ∷ lines) =
      let rest = first_difficulty read otherwise lines in
      elim (read line) [ some diff ↦ diff | none ↦ rest ]

-- The readers of the difficulty of a line and of hexadecimal digits.
module _ {W : Type 0} ⦃f : Float W⦄ (difficulty : Text → Option W)
    (from_hex : Text → Option (List ℕ)) where
  abbrev pub sv1_conn :
      ℕ
      → Option ℕ
      → List Text
      → List Heard
      → Option (List ℕ)
      → Result ConnectError (Sv1UpConn W × List Text × List Heard)
  sv1_conn en2 mask prelude unread none = err bad_extranonce
  sv1_conn en2 mask prelude unread (some en1) = ok (
    record {
      extranonce1 = en1;
      extranonce2_size = en2;
      version_mask = mask;
      initial_diff = first_difficulty difficulty (f.of_nat 1) (reverse prelude);
    },
    prelude,
    unread,
  )

  -- With the lines that came before the end of the handshake, and those after it.
  unfoldable pub connect_sv1_upstream :
      Writes → List Heard → Result ConnectError (Sv1UpConn W × List Text × List Heard)
  unfolding request parse_version_mask first_difficulty
  connect_sv1_upstream w lines = request w.configure lines [] >>= λ (cfg, prelude1, lines1).
      request w.subscribe lines1 prelude1 >>= λ (sub, prelude2, lines2).
      extranonce_of 16 sub.subscribed >>= λ (en1, en2).
      request w.authorize lines2 prelude2 >>= λ (auth, prelude3, lines3).
      sv1_conn en2 (parse_version_mask cfg) prelude3 lines3 (from_hex en1)
