-- ===== src/Sv2/Sv1Upstream.antt =====
-- src/proto/sv2/relay.rs, the two drivers of an SV1 upstream behind an SV2 miner: what a job, a share
-- and an answer of the pool do to the state they share, `Sv1UpState`. A line of the pool comes as
-- what the code reads of it; that reading is `sv1_api`'s and `serde_json`'s.
pub mod Shares
pub mod Jobs
use blitzpool_rental_proxy.Prelude.{
  Text, ℕ, zero, suc, ◌+◌, ◌/◌, ◌%◌, ◌^◌, Bool, true, not, ◌||◌, Option, none, some, List, [], ◌∷◌,
  if◌then◌else◌, leb, length, nat_eq, Result, ok, err, is_some,
}
use blitzpool_rental_proxy.Prelude.Dict.{Dict, lookup, insert, remove}
use blitzpool_rental_proxy.Sv2.Channels.{next_u32}
use blitzpool_rental_proxy.Translate.{
  Notify, NewExtendedMiningJob, NewMiningJob, SetNewPrevHash, SubmitSharesExtended,
  SubmitSharesStandard, Submit, TranslateError, Crates, sv1_notify_to_sv2_job,
  sv1_notify_to_sv2_standard_job, sv2_submit_to_sv1, sv2_standard_submit_to_sv1,
}

pub record Sv1JobInfo : Type 0 where
  pub sv1_job_id : Text
  -- only for a standard channel
  pub extranonce2 : Option (List ℕ)

pub record Sv1UpState : Type 0 where
  pub version_mask : Option ℕ
  pub user_name : Text
  pub extended : Bool
  pub extranonce1 : List ℕ
  pub extranonce2_size : ℕ
  pub next_extranonce2 : ℕ
  pub next_job_id : ℕ
  pub job_map : Dict ℕ Sv1JobInfo
  pub next_submit_id : ℕ
  pub submit_seq : Dict ℕ ℕ
  pub first_job_sent : Bool

-- What is synthesized for the miner.
pub data ToMiner : Type 0 where
  extended_job : NewExtendedMiningJob → ToMiner
  standard_job : NewMiningJob → ToMiner
  new_prev_hash : SetNewPrevHash → ToMiner
  new_target : ℕ → List ℕ → ToMiner
  -- channel id, sequence number
  submit_success : ℕ → ℕ → ToMiner
  submit_error : ℕ → ℕ → ToMiner

-- `u64::to_le_bytes` is `le_bytes 8`.
unfoldable pub le_bytes : ℕ → ℕ → List ℕ
le_bytes zero n = []
le_bytes (suc k) n = n % 256 ∷ le_bytes k (n / 256)

-- A vector of zeros, its front overwritten with what fits of the bytes.
unfoldable pub filled : ℕ → List ℕ → List ℕ
filled zero bytes = []
filled (suc k) [] = 0 ∷ filled k []
filled (suc k) (b ∷ bytes) = b ∷ filled k bytes

unfoldable pub extranonce2_of : ℕ → ℕ → List ℕ
unfolding le_bytes filled
extranonce2_of size counter = filled size (le_bytes 8 counter)

-- The job's entry in the map, and the counter of the extranonces, which only a standard job moves.
unfoldable pub job_info : Notify → Sv1UpState → Sv1JobInfo
unfolding extranonce2_of
job_info n s = record {
  sv1_job_id = n.job_id;
  extranonce2 =
      if s.extended then none else some (extranonce2_of s.extranonce2_size s.next_extranonce2);
}

abbrev pub as_future_of : Notify → Sv1UpState → Bool
as_future_of n s = n.clean_jobs || not s.first_job_sent

-- The map is emptied before it holds more than 64 jobs.
abbrev pub room_for_job : Sv1UpState → Dict ℕ Sv1JobInfo
room_for_job s = if leb 64 (length s.job_map) then [] else s.job_map

unfoldable pub note_job : Notify → Sv1UpState → Sv1UpState
unfolding job_info
note_job n s = record s {
  next_job_id = next_u32 s.next_job_id;
  job_map = insert s.next_job_id (job_info n s) (room_for_job s);
  first_job_sent = true;
  next_extranonce2 = if s.extended then s.next_extranonce2 else (s.next_extranonce2 + 1) % 2 ^ 64;
}

abbrev pub with_prev_hash : ToMiner → Option SetNewPrevHash → List ToMiner
with_prev_hash job none = job ∷ []
with_prev_hash job (some p) = job ∷ new_prev_hash p ∷ []

abbrev pub extended_frames :
    Result TranslateError (NewExtendedMiningJob × Option SetNewPrevHash) → List ToMiner
extended_frames (ok (job, prev)) = with_prev_hash (extended_job job) prev
extended_frames (err e) = []

abbrev pub standard_frames :
    Result TranslateError (NewMiningJob × Option SetNewPrevHash) → List ToMiner
standard_frames (ok (job, prev)) = with_prev_hash (standard_job job) prev
standard_frames (err e) = []

-- The frames for a mining.notify; a job that does not translate sends none.
unfoldable pub job_frames : Crates → ℕ → Notify → Sv1UpState → List ToMiner
unfolding extranonce2_of
job_frames c down_cid n s =
    if s.extended
    then extended_frames (
        sv1_notify_to_sv2_job c n down_cid s.next_job_id (as_future_of n s)
          (is_some s.version_mask))
    else standard_frames (
        sv1_notify_to_sv2_standard_job c n down_cid s.next_job_id s.extranonce1
          (extranonce2_of s.extranonce2_size s.next_extranonce2) (as_future_of n s))

-- A frame of the miner.
pub data Share : Type 0 where
  extended_share : SubmitSharesExtended → Share
  standard_share : SubmitSharesStandard → Share
  other_frame : Share

abbrev pub sequence_of : Share → ℕ
sequence_of (extended_share s) = s.sequence_number
sequence_of (standard_share s) = s.sequence_number
sequence_of other_frame = 0

abbrev pub job_of : Share → ℕ
job_of (extended_share s) = s.job_id
job_of (standard_share s) = s.job_id
job_of other_frame = 0

-- The next submit id is taken, and the share's sequence number kept under it.
unfoldable pub note_submit : ℕ → Sv1UpState → Sv1UpState
note_submit sequence_number s = record s {
  next_submit_id = (s.next_submit_id + 1) % 2 ^ 64;
  submit_seq = insert s.next_submit_id sequence_number s.submit_seq;
}

-- The mining.submit for the pool, none if the share is dropped before.
unfoldable pub submit_for :
    Crates
    → Share
    → Option Sv1JobInfo
    → Sv1UpState
    → Option (Result TranslateError Submit) × Sv1UpState
unfolding note_submit
submit_for c share none s = (none, s)
submit_for c (extended_share share) (some info) s = (
  some (sv2_submit_to_sv1 c share s.user_name info.sv1_job_id s.next_submit_id s.version_mask),
  note_submit share.sequence_number s,
)
submit_for c (standard_share share) (some info) s = elim info.extranonce2 [
  | none ↦ (none, s)
  | some extranonce2 ↦ (
    some (
        sv2_standard_submit_to_sv1 c share s.user_name info.sv1_job_id extranonce2 s.next_submit_id
          s.version_mask),
    note_submit share.sequence_number s,
  )
]
submit_for c other_frame (some info) s = (none, s)

unfoldable pub on_share :
    Crates → Share → Sv1UpState → Option (Result TranslateError Submit) × Sv1UpState
unfolding submit_for
on_share c share s = submit_for c share (lookup (job_of share) s.job_map) s

-- The sequence number that an answer of the pool is for.
unfoldable pub take_seq : ℕ → Sv1UpState → Option ℕ × Sv1UpState
take_seq id s = (lookup id s.submit_seq, record s { submit_seq = remove id s.submit_seq })
