-- ===== src/Examples/Translation.antt =====
-- A session behind an SV1 pool, under the theorems on translation.
use blitzpool_rental_proxy.Prelude.Dict.{insert}
use blitzpool_rental_proxy.Prelude.{
  ℕ, ◌≡◌, refl, ◌*◌, ◌/◌, ◌^◌, true, false, none, some, [], ◌∷◌, arith,
}
use blitzpool_rental_proxy.Prelude.Strings.{codes}
use blitzpool_rental_proxy.Sv2.Sv1Upstream.{
  Sv1UpState, standard_share, note_job, job_info, job_frames, on_share,
}
use blitzpool_rental_proxy.Sv2.Sv1Upstream.Jobs.{Sequenced, job_frames-Sequenced}
use blitzpool_rental_proxy.Sv2.Sv1Upstream.Shares.{Answered, note_jobs, on_share-Answered}
use blitzpool_rental_proxy.Sv2.Translated.{Sv1UpConn, response, handle_sv1_line}
use blitzpool_rental_proxy.Sv2.Translated.Lines.{handle_sv1_line-once}
use blitzpool_rental_proxy.Translate.{Crates, Notify, threshold_of, target_from_difficulty}
use blitzpool_rental_proxy.Translate.Difficulty.{threshold_of-whole}
use blitzpool_rental_proxy.Examples.Data.{whole, threshold}
use blitzpool_rental_proxy.Examples.Rig.{session}

abbrev crates : Crates
crates = record {
  fits_seq = λ path. true;
  fits_coinbase = λ part. true;
  fits_root = λ root. true;
  fits_extranonce = λ bytes. true;
  merkle_root_from_path = λ prefix suffix extranonce path. some (0 ∷ []);
}

abbrev template : Notify
template = record {
  job_id = codes "j1";
  prev_hash = 1 ∷ [];
  coin_base1 = 2 ∷ [];
  coin_base2 = 3 ∷ [];
  merkle_branch = [];
  version = 4;
  bits = 5;
  time = 6;
  clean_jobs = false;
}

-- A standard channel whose first job is still to come.
abbrev fresh : Sv1UpState
fresh = record {
  version_mask = some 0x1fffe000;
  user_name = codes "acct.rig-bp-proxy";
  extended = false;
  extranonce1 = 9 ∷ [];
  extranonce2_size = 4;
  next_extranonce2 = 300;
  next_job_id = 1;
  job_map = [];
  next_submit_id = 1;
  submit_seq = [];
  first_job_sent = false;
}

job_frames-Sequenced_example : Sequenced true 1 1 template (job_frames crates 1 template fresh)
job_frames-Sequenced_example = job_frames-Sequenced crates 1 template fresh

on_share-Answered_example :
    let share =
      standard_share
        (record { sequence_number = 77; job_id = 1; nonce = 8; ntime = 9; version = 0x20000000 }) in
    Answered share
      (job_info template fresh)
      (codes "acct.rig-bp-proxy")
      (some 0x1fffe000)
      (on_share crates share (note_jobs (template ∷ []) (note_job template fresh)))
unfolding note_job insert
on_share-Answered_example =
    on_share-Answered crates template (template ∷ [])
      (standard_share
        (record { sequence_number = 77; job_id = 1; nonce = 8; ntime = 9; version = 0x20000000 }))
      fresh refl (omega arith) (omega arith) (_, refl, refl)

-- Share 77 waits under submit id 3.
abbrev waiting : Sv1UpState
waiting = record fresh { submit_seq = (3, 77) ∷ [] }

handle_sv1_line-once_example :
    let after =
      (handle_sv1_line threshold crates 5 1 1 (response (some 3) true) session waiting).3 in
    let again = handle_sv1_line threshold crates 6 1 1 (response (some 3) true) session after in
    (again.0 ≡ []) × (again.1 ≡ none) × (again.2 ≡ session)
handle_sv1_line-once_example =
    handle_sv1_line-once threshold crates 5 6 1 1 3 true true session session waiting
      (handle_sv1_line threshold crates 5 1 1 (response (some 3) true) session waiting).3 refl

abbrev sv1_link : Sv1UpConn ℕ
sv1_link = record {
  extranonce1 = 9 ∷ [];
  extranonce2_size = 4;
  version_mask = none;
  initial_diff = 2;
}

threshold_of-whole_example :
    (threshold_of threshold 2 ≡ some (65535 * 2 ^ 208 / 2))
    × (target_from_difficulty threshold 2 ≡ (65535 * 2 ^ 208 / 2) ∷ [])
threshold_of-whole_example = threshold_of-whole threshold 2 (record {
  finite = refl;
  above_zero = refl;
  product = refl;
  rounding = refl;
  not_below_one = refl;
  cast = refl;
})
