-- ===== src/Relay/Translator.antt =====
-- src/proto/relay.rs, the two tasks behind which an SV1 miner mines for an SV2 pool: its submits become
-- shares, the pool's jobs, targets and answers become lines. The conversions are
-- `stratum_translation`'s, and come as parameters with the readers.
pub mod Answers
pub mod Run
use blitzpool_rental_proxy.Prelude.{
  Text, ℕ, ◌+◌, ◌%◌, ◌^◌, Bool, true, false, Option, none, some, List, [], ◌∷◌, ◌++◌, map,
  if◌then◌else◌, leb, length, nat_eq, is_some,
}
use blitzpool_rental_proxy.Prelude.Dict.{Dict, lookup, insert}
use blitzpool_rental_proxy.Prelude.Float.{Float}
use blitzpool_rental_proxy.Relay.{
  Inner, Credit, drain_acked, remove_seq, send_or_stash, set_translate_difficulty,
  credit_translate_accepted,
}
use blitzpool_rental_proxy.Translate.{
  NewExtendedMiningJob, SetNewPrevHash, Threshold, difficulty_from_target, version_rolling_mask,
}

-- `Sv2UpState`, with the last prev-hash and job that the reader keeps.
pub record Sv2UpState : Type 0 where
  pub channel_id : ℕ
  pub next_seq : ℕ
  pub latest_version : ℕ
  pub job_versions : Dict ℕ ℕ
  -- sequence number, the miner's id
  pub pending_submits : List (ℕ × Text)
  pub prev : Option SetNewPrevHash
  pub job : Option NewExtendedMiningJob

-- A mining.submit, as the task reads it.
pub record Submitted : Type 0 where
  pub id : Text
  -- the job's id, if it is a number
  pub job_id : Option ℕ
  pub has_version_bits : Bool

-- A share of the SV2 pool: channel, sequence number, the job's version, the mask.
pub record ShareFor : Type 0 where
  pub channel_id : ℕ
  pub sequence_number : ℕ
  pub job_version : ℕ
  pub mask : Option ℕ
  pub submit : Submitted

abbrev pub or_latest : Option ℕ → ℕ → ℕ
or_latest none latest = latest
or_latest (some version) latest = version

abbrev pub version_for : Option ℕ → Sv2UpState → ℕ
version_for none s = s.latest_version
version_for (some job_id) s = or_latest (lookup job_id s.job_versions) s.latest_version

-- What the share is built from, and the state that waits for its answer.
unfoldable pub on_submit : Submitted → Sv2UpState → ShareFor × Sv2UpState
on_submit submit s = (
  record {
    channel_id = s.channel_id;
    sequence_number = s.next_seq;
    job_version = version_for submit.job_id s;
    mask = if submit.has_version_bits then some version_rolling_mask else none;
    submit = submit;
  },
  record s {
    next_seq = (s.next_seq + 1) % 2 ^ 32;
    pending_submits = s.pending_submits ++ (s.next_seq, submit.id) ∷ [];
  },
)

-- A frame of the pool.
pub data PoolFrame : Type 0 where
  new_job : NewExtendedMiningJob → PoolFrame
  prev_hash : SetNewPrevHash → PoolFrame
  target : List ℕ → PoolFrame
  -- last_sequence_number, new_submits_accepted_count
  submit_success : ℕ → ℕ → PoolFrame
  submit_error : ℕ → PoolFrame

-- The lines of the SV1 crate; none is a job that does not translate.
pub record Lines (W : Type 0) : Type 0 where
  pub notify_line : SetNewPrevHash → NewExtendedMiningJob → Bool → Option Text
  pub set_difficulty_line : W → Text

-- What a frame does: lines for the miner, answers to its submits, the credit, and both states.
pub record Pooled (W : Type 0) : Type 0 where
  pub lines : List Text
  pub results : List (Text × Bool)
  pub credit : Option (Credit W)
  pub inner : Inner W
  pub state : Sv2UpState

abbrev pub listed : Option Text → List Text
listed none = []
listed (some line) = line ∷ []

abbrev pub room_for_version : Sv2UpState → Dict ℕ ℕ
room_for_version s = if leb 64 (length s.job_versions) then [] else s.job_versions

unfoldable pub note_version : NewExtendedMiningJob → Sv2UpState → Sv2UpState
note_version j s = record s {
  job_versions = insert j.job_id j.version (room_for_version s);
  latest_version = j.version;
  job = some j;
}

abbrev pub accepted : Text → Text × Bool
accepted id = (id, true)

abbrev pub refused : Option Text → List (Text × Bool)
refused none = []
refused (some id) = (id, false) ∷ []

module _ {W : Type 0} where
  abbrev pub quiet : Inner W → Sv2UpState → Pooled W
  quiet i s = record { lines = []; results = []; credit = none; inner = i; state = s }

  unfoldable pub stash : ℕ → Option Text → Inner W → Sv2UpState → Pooled W
  unfolding send_or_stash
  stash generation none i s = quiet i s
  stash generation (some line) i s =
      let (sent, i') = send_or_stash generation line i in
      record (quiet i' s) { lines = listed sent }

  unfoldable pub emit_translate_notify :
      Lines W
      → ℕ
      → Option SetNewPrevHash
      → Option NewExtendedMiningJob
      → Bool
      → Inner W
      → Sv2UpState
      → Pooled W
  unfolding stash
  emit_translate_notify l generation (some p) (some j) clean i s =
      stash generation (l.notify_line p j clean) i s
  emit_translate_notify l generation (some p) none clean i s = quiet i s
  emit_translate_notify l generation none job clean i s = quiet i s

  unfoldable pub on_job : Lines W → ℕ → NewExtendedMiningJob → Inner W → Sv2UpState → Pooled W
  unfolding note_version emit_translate_notify
  on_job l generation j i s =
      let s' = note_version j s in
      if is_some j.min_ntime
      then emit_translate_notify l generation s.prev (some j) false i s'
      else quiet i s'

  unfoldable pub on_refusal : ℕ → Inner W → Sv2UpState → Pooled W
  unfolding remove_seq
  on_refusal seq i s =
      let (found, left) = remove_seq s.pending_submits seq in
      record (quiet i (record s { pending_submits = left })) { results = refused found }

module _ {W : Type 0} ⦃f : Float W⦄ (t : Threshold W) (l : Lines W) where
  unfoldable pub on_target : ℕ → List ℕ → Inner W → Sv2UpState → Pooled W
  unfolding difficulty_from_target set_translate_difficulty stash
  on_target generation bytes i s =
      let diff = difficulty_from_target t bytes in
      let (current, i') = set_translate_difficulty generation diff i in
      if current then stash generation (some (l.set_difficulty_line diff)) i' s else quiet i' s

  unfoldable pub on_success : ℕ → ℕ → ℕ → ℕ → Inner W → Sv2UpState → Pooled W
  unfolding credit_translate_accepted drain_acked
  on_success now generation last_seq count i s =
      let (credit, i') = credit_translate_accepted now generation count i in
      let (ids, left) = drain_acked s.pending_submits last_seq in
      record {
        lines = [];
        results = map accepted ids;
        credit = credit;
        inner = i';
        state = record s { pending_submits = left };
      }

  -- The time, the generation of the reader, and a frame.
  unfoldable pub on_pool_frame : ℕ → ℕ → PoolFrame → Inner W → Sv2UpState → Pooled W
  unfolding on_job emit_translate_notify on_target on_success on_refusal
  on_pool_frame now generation (new_job j) i s = on_job l generation j i s
  on_pool_frame now generation (prev_hash p) i s =
      emit_translate_notify l generation (some p) s.job true i (record s { prev = some p })
  on_pool_frame now generation (target bytes) i s = on_target generation bytes i s
  on_pool_frame now generation (submit_success last_seq count) i s =
      on_success now generation last_seq count i s
  on_pool_frame now generation (submit_error seq) i s = on_refusal seq i s
