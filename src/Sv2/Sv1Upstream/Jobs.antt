-- ===== src/Sv2/Sv1Upstream/Jobs.antt =====
-- src/proto/sv2/relay.rs, `handle_sv1_line` on a mining.notify: when a job becomes valid, and the
-- extranonces that the proxy rolls.
use blitzpool_rental_proxy.Prelude.{
  ◌≡◌, refl, ℕ, zero, suc, ◌*◌, ◌/◌, ◌^◌, ◌<◌, Bool, true, false, ◌||◌, not, inl, inr, Option, none,
  some, List, [], ◌∷◌, ◌++◌, arith, Bool-cases,
}
use blitzpool_rental_proxy.Sv2.Sv1Upstream.{
  Sv1UpState, ToMiner, extended_job, standard_job, new_prev_hash, job_frames, as_future_of,
  extended_frames, standard_frames, with_prev_hash, le_bytes, filled, extranonce2_of,
}
use blitzpool_rental_proxy.Translate.{
  Notify, Crates, standard_job_for, sv1_notify_to_sv2_job, sv1_notify_to_sv2_standard_job,
  prev_hash_of, min_ntime_of,
}

-- The times and ids of a job that is sent.
abbrev pub Job : ℕ → ℕ → Option ℕ → ToMiner → Type 0
Job channel_id job_id min_ntime (extended_job j) =
    (j.channel_id ≡ channel_id) × (j.job_id ≡ job_id) × (j.min_ntime ≡ min_ntime)
Job channel_id job_id min_ntime (standard_job j) =
    (j.channel_id ≡ channel_id) × (j.job_id ≡ job_id) × (j.min_ntime ≡ min_ntime)
Job channel_id job_id min_ntime other = ⊥

abbrev pub Activates : ℕ → ℕ → Notify → ToMiner → Type 0
Activates channel_id job_id n (new_prev_hash p) =
    (p.channel_id ≡ channel_id)
    × (p.job_id ≡ job_id)
    × (p.prev_hash ≡ n.prev_hash)
    × (p.min_ntime ≡ n.time)
    × (p.nbits ≡ n.bits)
Activates channel_id job_id n other = ⊥

-- A job ahead of its time comes with the prev-hash that activates it; any other is valid at once.
abbrev pub Sequenced : Bool → ℕ → ℕ → Notify → List ToMiner → Type 0
Sequenced as_future channel_id job_id n [] = Unit
Sequenced as_future channel_id job_id n (job ∷ []) =
    (as_future ≡ false) × Job channel_id job_id (some n.time) job
Sequenced as_future channel_id job_id n (job ∷ prev ∷ []) =
    (as_future ≡ true) × Job channel_id job_id none job × Activates channel_id job_id n prev
Sequenced as_future channel_id job_id n (job ∷ prev ∷ more ∷ rest) = ⊥

module _ (c : Crates) (channel_id job_id : ℕ) (n : Notify) where
  with_prev_hash-Sequenced :
      (as_future : Bool) (job : ToMiner)
      → Job channel_id job_id (min_ntime_of as_future n) job
      → Sequenced as_future channel_id job_id n
          (with_prev_hash job (prev_hash_of as_future channel_id job_id n))
  with_prev_hash-Sequenced true job h = (refl, h, (refl, refl, refl, refl, refl))
  with_prev_hash-Sequenced false job h = (refl, h)

  of_root :
      (as_future : Bool) (root : Option (List ℕ))
      → Sequenced as_future channel_id job_id n
          (standard_frames (standard_job_for c n channel_id job_id as_future root))
  unfolding standard_job_for
  of_root as_future none = tt
  of_root as_future (some root) = elim (Bool-cases (c.fits_root root)) [
    | inr e ↦ rw e tt
    | inl e ↦ rw e (with_prev_hash-Sequenced as_future _ (refl, refl, refl))
  ]

  extended_frames-Sequenced :
      (as_future rolling : Bool)
      → Sequenced as_future channel_id job_id n
          (extended_frames (sv1_notify_to_sv2_job c n channel_id job_id as_future rolling))
  unfolding sv1_notify_to_sv2_job
  extended_frames-Sequenced as_future rolling = elim (Bool-cases (c.fits_seq n.merkle_branch)) [
    | inr e ↦ rw e tt
    | inl e ↦ elim (Bool-cases (c.fits_coinbase n.coin_base1)) [
      | inr b ↦ rw (e, b) tt
      | inl b ↦ elim (Bool-cases (c.fits_coinbase n.coin_base2)) [
        | inr d ↦ rw (e, b, d) tt
        | inl d ↦ rw (e, b, d) (with_prev_hash-Sequenced as_future _ (refl, refl, refl))
      ]
    ]
  ]

  standard_frames-Sequenced :
      (as_future : Bool) (extranonce1 extranonce2 : List ℕ)
      → Sequenced as_future channel_id job_id n (
          standard_frames (
            sv1_notify_to_sv2_standard_job c n channel_id job_id extranonce1 extranonce2 as_future))
  unfolding sv1_notify_to_sv2_standard_job
  standard_frames-Sequenced as_future extranonce1 extranonce2 = of_root as_future (
      c.merkle_root_from_path n.coin_base1 n.coin_base2 (extranonce1 ++ extranonce2)
        n.merkle_branch)

-- The frames for a job of the pool are none at all, or the job alone with the pool's time, or, for a
-- job of a new block and for the first job, the job without a time and then the prev-hash that
-- activates it, under the same ids and with the pool's time and bits.
pub job_frames-Sequenced :
    (c : Crates) (down_cid : ℕ) (n : Notify) (s : Sv1UpState)
    → Sequenced
        (n.clean_jobs || not s.first_job_sent)
        down_cid
        s.next_job_id
        n
        (job_frames c down_cid n s)
unfolding job_frames
job_frames-Sequenced c down_cid n s = elim (Bool-cases s.extended) [
  | inl e ↦ rw e (extended_frames-Sequenced c down_cid s.next_job_id n (as_future_of n s) _)
  | inr e ↦ rw e (standard_frames-Sequenced c down_cid s.next_job_id n (as_future_of n s) _ _)
]

first_same : {a b : ℕ} {xs ys : List ℕ} → ◌≡◌ {A = List ℕ} (a ∷ xs) (b ∷ ys) → a ≡ b
first_same e = cc

rest_same : {a b : ℕ} {xs ys : List ℕ} → ◌≡◌ {A = List ℕ} (a ∷ xs) (b ∷ ys) → xs ≡ ys
rest_same e = cc

quotient_bound : (a power : ℕ) → a < power * 256 → a / 256 < power
quotient_bound a power h = omega arith

filled_injective :
    (size bytes a b : ℕ)
    → a < 256 ^ size
    → b < 256 ^ size
    → a < 256 ^ bytes
    → b < 256 ^ bytes
    → filled size (le_bytes bytes a) ≡ filled size (le_bytes bytes b)
    → a ≡ b
unfolding filled le_bytes
filled_injective zero bytes a b h k l m e = omega (arith, h, k)
filled_injective (suc size) zero a b h k l m e = omega (arith, l, m)
filled_injective (suc size) (suc bytes) a b h k l m e =
    let rest =
      filled_injective size bytes (a / 256) (b / 256) (quotient_bound a _ (omega arith))
        (quotient_bound b _ (omega arith)) (quotient_bound a _ (omega arith))
        (quotient_bound b _ (omega arith)) (rest_same e) in
    omega (arith, rest, first_same e)

-- Two counters below 2^64 that fit in the size of the extranonce give the same extranonce only if they
-- are the same, so that no two standard jobs of one pool connection share a coinbase before the
-- extranonces run out.
pub extranonce2_of_injective :
    (size a b : ℕ)
    → a < 256 ^ size
    → b < 256 ^ size
    → a < 2 ^ 64
    → b < 2 ^ 64
    → extranonce2_of size a ≡ extranonce2_of size b
    → a ≡ b
unfolding extranonce2_of
extranonce2_of_injective size a b h k l m e = filled_injective size 8 a b h k l m e
