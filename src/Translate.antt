-- ===== src/Translate.antt =====
-- src/proto/translate.rs: a job or a share in the other protocol's words. The messages are the crates'
-- `mining_sv2` and `sv1_api`; of their fields the ones that the code reads or fills are kept.
pub mod Difficulty
use Prim.Native.Nat.{bit_and}
use mathlib.Core.Option
use blitzpool_rental_proxy.Prelude.{
  Text, ℕ, ◌*◌, ◌/◌, Bool, length, nat_beq, replicate, Option, none, some, List, [], ◌∷◌, ◌++◌,
  if◌then◌else◌, not, ◌||◌, Result, ok, err,
}
use blitzpool_rental_proxy.Prelude.Float.{Float, nought}

-- Version-rolling bits of BIP 320.
abbrev pub version_rolling_mask : ℕ
version_rolling_mask = 536862720

-- `f64` and 256-bit numbers, as far as they are not in `Float`.
pub record Threshold (W : Type 0) : Type 0 where
  pub is_finite : W → Bool
  -- `round`
  pub rounded : W → W
  -- `as u128`
  pub as_u128 : W → ℕ
  -- `Target::from_le_bytes(..).difficulty_float()`
  pub difficulty_float : List ℕ → W
  -- `U256::to_little_endian`
  pub to_little_endian : ℕ → List ℕ
  -- `Target::MAX`, the target of difficulty 1
  pub diff1 : ℕ

abbrev pub scale : ℕ
scale = 65536

module _ {W : Type 0} ⦃f : Float W⦄ (t : Threshold W) where
  unfoldable pub difficulty_from_target : List ℕ → W
  difficulty_from_target target =
      let d = t.difficulty_float target in
      if not (nat_beq (length target) 32) then nought else if t.is_finite d then d else nought

  -- (difficulty * SCALE as f64).round()
  abbrev pub denom_of : W → W
  denom_of difficulty = t.rounded (f.mul difficulty (f.of_nat scale))

  -- The target as a number; none is the greatest one, which is no threshold.
  unfoldable pub threshold_of : W → Option ℕ
  threshold_of difficulty =
      if not (t.is_finite difficulty) || f.le difficulty nought
      then none
      else if f.lt (denom_of difficulty) (f.of_nat 1)
      then none
      else some (t.diff1 * scale / t.as_u128 (denom_of difficulty))

  unfoldable pub target_from_difficulty : W → List ℕ
  unfolding threshold_of
  target_from_difficulty difficulty = elim (threshold_of difficulty) [
    | none ↦ replicate 32 255
    | some target ↦ t.to_little_endian target
  ]

-- `mining.notify`
pub record Notify : Type 0 where
  pub job_id : Text
  pub prev_hash : List ℕ
  pub coin_base1 : List ℕ
  pub coin_base2 : List ℕ
  pub merkle_branch : List (List ℕ)
  pub version : ℕ
  pub bits : ℕ
  pub time : ℕ
  pub clean_jobs : Bool

pub record NewExtendedMiningJob : Type 0 where
  pub channel_id : ℕ
  pub job_id : ℕ
  pub min_ntime : Option ℕ
  pub version : ℕ
  pub version_rolling_allowed : Bool
  pub merkle_path : List (List ℕ)
  pub coinbase_tx_prefix : List ℕ
  pub coinbase_tx_suffix : List ℕ

pub record NewMiningJob : Type 0 where
  pub channel_id : ℕ
  pub job_id : ℕ
  pub min_ntime : Option ℕ
  pub version : ℕ
  pub merkle_root : List ℕ

pub record SetNewPrevHash : Type 0 where
  pub channel_id : ℕ
  pub job_id : ℕ
  pub prev_hash : List ℕ
  pub min_ntime : ℕ
  pub nbits : ℕ

pub record SubmitSharesExtended : Type 0 where
  pub sequence_number : ℕ
  pub job_id : ℕ
  pub nonce : ℕ
  pub ntime : ℕ
  pub version : ℕ
  pub extranonce : List ℕ

pub record SubmitSharesStandard : Type 0 where
  pub sequence_number : ℕ
  pub job_id : ℕ
  pub nonce : ℕ
  pub ntime : ℕ
  pub version : ℕ

-- `mining.submit`
pub record Submit : Type 0 where
  pub user_name : Text
  pub job_id : Text
  pub extra_nonce2 : List ℕ
  pub time : ℕ
  pub nonce : ℕ
  pub version_bits : Option ℕ
  pub id : ℕ

-- Why a translation fails.
pub data TranslateError : Type 0 where
  merkle_path_too_long : TranslateError
  coinbase_prefix_too_long : TranslateError
  coinbase_suffix_too_long : TranslateError
  not_a_transaction : TranslateError
  bad_merkle_root : TranslateError
  bad_extranonce : TranslateError

-- What the crates' types take in, and the merkle root of a coinbase.
pub record Crates : Type 0 where
  -- `Seq0255::new`
  pub fits_seq : List (List ℕ) → Bool
  -- `B064K::try_from`
  pub fits_coinbase : List ℕ → Bool
  -- `U256::try_from`
  pub fits_root : List ℕ → Bool
  -- `Extranonce::try_from`
  pub fits_extranonce : List ℕ → Bool
  -- coinb1, coinb2, the whole extranonce, the path
  pub merkle_root_from_path : List ℕ → List ℕ → List ℕ → List (List ℕ) → Option (List ℕ)

-- A job that is sent ahead has no time of its own: the `SetNewPrevHash` that activates it has.
abbrev pub min_ntime_of : Bool → Notify → Option ℕ
min_ntime_of as_future n = if as_future then none else some n.time

abbrev pub prev_hash_of : Bool → ℕ → ℕ → Notify → Option SetNewPrevHash
prev_hash_of as_future channel_id job_id n =
    if as_future
    then some (record {
      channel_id = channel_id;
      job_id = job_id;
      prev_hash = n.prev_hash;
      min_ntime = n.time;
      nbits = n.bits;
    })
    else none

-- version & mask
abbrev pub rolled : Option ℕ → ℕ → Option ℕ
rolled mask version = Option.map (λ m. bit_and version m) mask

module _ (c : Crates) where
  unfoldable pub sv1_notify_to_sv2_job :
      Notify
      → ℕ
      → ℕ
      → Bool
      → Bool
      → Result TranslateError (NewExtendedMiningJob × Option SetNewPrevHash)
  sv1_notify_to_sv2_job n channel_id job_id as_future rolling =
      if not (c.fits_seq n.merkle_branch)
      then err merkle_path_too_long
      else if not (c.fits_coinbase n.coin_base1)
      then err coinbase_prefix_too_long
      else if not (c.fits_coinbase n.coin_base2)
      then err coinbase_suffix_too_long
      else ok (
        record {
          channel_id = channel_id;
          job_id = job_id;
          min_ntime = min_ntime_of as_future n;
          version = n.version;
          version_rolling_allowed = rolling;
          merkle_path = n.merkle_branch;
          coinbase_tx_prefix = n.coin_base1;
          coinbase_tx_suffix = n.coin_base2;
        },
        prev_hash_of as_future channel_id job_id n,
      )

  unfoldable pub standard_job_for :
      Notify
      → ℕ
      → ℕ
      → Bool
      → Option (List ℕ)
      → Result TranslateError (NewMiningJob × Option SetNewPrevHash)
  standard_job_for n channel_id job_id as_future none = err not_a_transaction
  standard_job_for n channel_id job_id as_future (some root) =
      if not (c.fits_root root)
      then err bad_merkle_root
      else ok (
        record {
          channel_id = channel_id;
          job_id = job_id;
          min_ntime = min_ntime_of as_future n;
          version = n.version;
          merkle_root = root;
        },
        prev_hash_of as_future channel_id job_id n,
      )

  -- channel id, job id, extranonce1, extranonce2
  unfoldable pub sv1_notify_to_sv2_standard_job :
      Notify
      → ℕ
      → ℕ
      → List ℕ
      → List ℕ
      → Bool
      → Result TranslateError (NewMiningJob × Option SetNewPrevHash)
  unfolding standard_job_for
  sv1_notify_to_sv2_standard_job n channel_id job_id extranonce1 extranonce2 as_future =
      standard_job_for n channel_id job_id as_future (
        c.merkle_root_from_path n.coin_base1 n.coin_base2 (extranonce1 ++ extranonce2)
          n.merkle_branch)

  -- user_name, job_id, extranonce2, id, mask
  unfoldable pub sv2_standard_submit_to_sv1 :
      SubmitSharesStandard → Text → Text → List ℕ → ℕ → Option ℕ → Result TranslateError Submit
  sv2_standard_submit_to_sv1 submit user_name job_id extranonce2 id mask =
      if not (c.fits_extranonce extranonce2)
      then err bad_extranonce
      else ok (record {
        user_name = user_name;
        job_id = job_id;
        extra_nonce2 = extranonce2;
        time = submit.ntime;
        nonce = submit.nonce;
        version_bits = rolled mask submit.version;
        id = id;
      })

  -- user_name, job_id, id, mask
  unfoldable pub sv2_submit_to_sv1 :
      SubmitSharesExtended → Text → Text → ℕ → Option ℕ → Result TranslateError Submit
  sv2_submit_to_sv1 submit user_name job_id id mask =
      if not (c.fits_extranonce submit.extranonce)
      then err bad_extranonce
      else ok (record {
        user_name = user_name;
        job_id = job_id;
        extra_nonce2 = submit.extranonce;
        time = submit.ntime;
        nonce = submit.nonce;
        version_bits = rolled mask submit.version;
        id = id;
      })
