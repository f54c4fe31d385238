-- ===== src/Wire/ChannelId.antt =====
-- src/proto/sv2/wire.rs: reading and rewriting the channel id.
use blitzpool_rental_proxy.Prelude.{
  ℕ, ◌+◌, ◌*◌, ◌/◌, ◌%◌, ◌^◌, ◌≤◌, ◌<◌, ◌≡◌, refl, ap, none, some, List, [], ◌∷◌, arith, length,
  drop,
}
use blitzpool_rental_proxy.Wire.{read_channel_id, rewrite_channel_id}

-- What a rewrite does to a payload: with room for an id, it reads back; without, nothing happens.
abbrev pub Rewritten : ℕ → List ℕ → Type 0
Rewritten id payload =
    (4 ≤ length payload → read_channel_id (rewrite_channel_id id payload) ≡ some id)
    × (length payload < 4
        → (rewrite_channel_id id payload ≡ payload) × (read_channel_id payload ≡ none))
    × (drop 4 (rewrite_channel_id id payload) ≡ drop 4 payload)
    × (length (rewrite_channel_id id payload) ≡ length payload)

four_bytes :
    (id : ℕ)
    → id < 2 ^ 32
    → id % 2 ^ 8
        + id / 2 ^ 8 % 2 ^ 8 * 2 ^ 8
        + id / 2 ^ 16 % 2 ^ 8 * 2 ^ 16
        + id / 2 ^ 24 % 2 ^ 8 * 2 ^ 24
      ≡ id
four_bytes id h = omega arith

-- A rewritten id reads back, nothing behind it changes, and the length stays. A payload too short
-- for an id is left as it is, and reads as none.
pub read-rewrite : (id : ℕ) (payload : List ℕ) → id < 2 ^ 32 → Rewritten id payload
unfolding read_channel_id rewrite_channel_id
read-rewrite id [] h = (λ k. absurd (omega arith), λ k. (refl, refl), refl, refl)
read-rewrite id (a ∷ []) h = (λ k. absurd (omega arith), λ k. (refl, refl), refl, refl)
read-rewrite id (a ∷ b ∷ []) h = (λ k. absurd (omega arith), λ k. (refl, refl), refl, refl)
read-rewrite id (a ∷ b ∷ c ∷ []) h = (λ k. absurd (omega arith), λ k. (refl, refl), refl, refl)
read-rewrite id (a ∷ b ∷ c ∷ d ∷ rest) h =
    (λ k. ap some (four_bytes id h), λ k. absurd (omega arith), refl, refl)
