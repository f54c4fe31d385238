-- ===== src/Wire.antt =====
-- src/proto/sv2/wire.rs: the channel id of a frame. A frame's payload is a list of bytes; the frames
-- themselves, and the numbers of the message types, are the SV2 crates'.
pub mod ChannelId
use blitzpool_rental_proxy.Prelude.{
  ℕ, ◌+◌, ◌*◌, ◌/◌, ◌%◌, ◌^◌, Bool, false, ◌||◌, Option, none, some, List, [], ◌∷◌, nat_beq,
}

-- The message types of `mining_sv2` that the relay looks at.
pub record MessageTypes : Type 0 where
  pub new_mining_job : ℕ
  pub new_extended_mining_job : ℕ
  pub set_new_prev_hash : ℕ
  pub set_extranonce_prefix : ℕ
  pub set_target : ℕ
  pub submit_shares_standard : ℕ
  pub submit_shares_extended : ℕ
  pub submit_shares_success : ℕ
  pub submit_shares_error : ℕ
  pub update_channel : ℕ
  pub update_channel_error : ℕ
  pub close_channel : ℕ
  pub open_extended_success : ℕ
  pub open_standard_success : ℕ
  pub open_error : ℕ

unfoldable pub is_channel_scoped : MessageTypes → ℕ → Bool
is_channel_scoped m t =
    nat_beq t m.new_mining_job
    || nat_beq t m.new_extended_mining_job
    || nat_beq t m.set_new_prev_hash
    || nat_beq t m.set_extranonce_prefix
    || nat_beq t m.set_target
    || nat_beq t m.submit_shares_standard
    || nat_beq t m.submit_shares_extended
    || nat_beq t m.submit_shares_success
    || nat_beq t m.submit_shares_error
    || nat_beq t m.update_channel
    || nat_beq t m.update_channel_error
    || nat_beq t m.close_channel

-- u32::from_le_bytes of the first four bytes; a shorter payload has no channel id.
unfoldable pub read_channel_id : List ℕ → Option ℕ
read_channel_id (a ∷ b ∷ c ∷ d ∷ rest) = some (a + b * 2 ^ 8 + c * 2 ^ 16 + d * 2 ^ 24)
read_channel_id short = none

-- u32::to_le_bytes over the first four bytes; a shorter payload is left alone.
unfoldable pub rewrite_channel_id : ℕ → List ℕ → List ℕ
rewrite_channel_id id (a ∷ b ∷ c ∷ d ∷ rest) =
    (id % 2 ^ 8) ∷ (id / 2 ^ 8 % 2 ^ 8) ∷ (id / 2 ^ 16 % 2 ^ 8) ∷ (id / 2 ^ 24 % 2 ^ 8) ∷ rest
rewrite_channel_id id short = short
