-- ===== src/Sv2/Sv1Upstream/Shares.antt =====
-- src/proto/sv2/relay.rs: a job of an SV1 pool, the miner's share for it, and the pool's answer.
use blitzpool_rental_proxy.Prelude.{
  ◌≡◌, refl, subst, ℕ, ◌+◌, ◌^◌, ◌≤◌, ◌<◌, true, Option, none, some, List, [], ◌∷◌, length,
  nat_beq_iff, nat_eq, Text, arith, Result, ok,
}
use blitzpool_rental_proxy.Prelude.Dict.{Dict, lookup, insert, remove, lookup-insert, lookup-remove}
use blitzpool_rental_proxy.Sv2.Sv1Upstream.{
  Sv1JobInfo, Sv1UpState, Share, extended_share, standard_share, other_frame, note_job, job_info,
  room_for_job, on_share, submit_for, note_submit, take_seq, job_of, sequence_of,
}
use blitzpool_rental_proxy.Translate.{
  Notify, Submit, rolled, TranslateError, Crates, sv2_submit_to_sv1, sv2_standard_submit_to_sv1,
}

length-insert :
    (k : ℕ) (v : Sv1JobInfo) (m : Dict ℕ Sv1JobInfo) → length (insert k v m) ≤ 1 + length m
unfolding insert
length-insert k v [] = omega arith
length-insert k v ((j, w) ∷ m) = ground (arith, length-insert k v m)

room : (s : Sv1UpState) → length (room_for_job s) ≤ 63
room s = ground arith

-- After a job the map of jobs holds at most 64, however many it held.
pub note_job-bounds : (n : Notify) (s : Sv1UpState) → length (note_job n s).job_map ≤ 64
unfolding note_job
note_job-bounds n s =
    omega (arith, length-insert s.next_job_id (job_info n s) (room_for_job s), room s)

-- Further jobs of the pool.
unfoldable pub note_jobs : List Notify → Sv1UpState → Sv1UpState
note_jobs [] s = s
note_jobs (n ∷ ns) s = note_jobs ns (note_job n s)

kept :
    (n : Notify) (s : Sv1UpState) (job : ℕ) (info : Sv1JobInfo)
    → length s.job_map < 64
    → job < s.next_job_id
    → lookup job s.job_map ≡ some info
    → lookup job (note_job n s).job_map ≡ some info
unfolding note_job
kept n s job info small below found = ground (
  arith,
  lookup-insert s.next_job_id job (job_info n s) (room_for_job s),
  nat_beq_iff s.next_job_id job,
)

note_jobs-kept :
    (ns : List Notify) (s : Sv1UpState) (job : ℕ) (info : Sv1JobInfo)
    → length s.job_map + length ns ≤ 64
    → job < s.next_job_id
    → s.next_job_id + length ns < 2 ^ 32
    → lookup job s.job_map ≡ some info
    → lookup job (note_jobs ns s).job_map ≡ some info
unfolding note_jobs note_job
note_jobs-kept [] s job info small below few found = found
note_jobs-kept (n ∷ ns) s job info small below few found =
    note_jobs-kept ns (note_job n s) job info
      (ground (arith, length-insert s.next_job_id (job_info n s) s.job_map)) (omega arith)
      (omega arith) (kept n s job info (omega arith) below found)

note_jobs-static :
    (ns : List Notify) (s : Sv1UpState)
    → ((note_jobs ns s).user_name ≡ s.user_name) × ((note_jobs ns s).version_mask ≡ s.version_mask)
unfolding note_jobs note_job
note_jobs-static [] s = (refl, refl)
note_jobs-static (n ∷ ns) s = note_jobs-static ns (note_job n s)

abbrev pub or_nothing : Option (List ℕ) → List ℕ
or_nothing none = []
or_nothing (some e) = e

-- The extranonce that the pool has to be told: the miner's own, or the one of the job's coinbase.
abbrev pub extranonce_for : Share → Sv1JobInfo → List ℕ
extranonce_for (extended_share share) info = share.extranonce
extranonce_for (standard_share share) info = or_nothing info.extranonce2
extranonce_for other_frame info = []

-- A standard share belongs to a job that was built with an extranonce of the proxy's.
abbrev pub Fits : Crates → Share → Sv1JobInfo → Type 0
Fits c (extended_share share) info = c.fits_extranonce share.extranonce ≡ true
Fits c (standard_share share) info =
    (e : List ℕ) × (info.extranonce2 ≡ some e) × (c.fits_extranonce e ≡ true)
Fits c other_frame info = ⊥

abbrev pub version_of : Share → ℕ
version_of (extended_share share) = share.version
version_of (standard_share share) = share.version
version_of other_frame = 0

-- The share goes to the pool under its own name of the job, with the extranonce of the job, and the
-- pool's answer leads back to the share.
abbrev pub Answered :
    Share
    → Sv1JobInfo
    → Text
    → Option ℕ
    → Option (Result TranslateError Submit) × Sv1UpState
    → Type 0
Answered share info user mask (sent, s') =
    (p : Submit) × (sent ≡ some (ok p))
    × (p.job_id ≡ info.sv1_job_id)
    × (p.user_name ≡ user)
    × (p.extra_nonce2 ≡ extranonce_for share info)
    × (p.version_bits ≡ rolled mask (version_of share))
    × ((take_seq p.id s').0 ≡ some (sequence_of share))
    × ((take_seq p.id (take_seq p.id s').1).0 ≡ none)

seq_after :
    (id seq : ℕ) (m : Dict ℕ ℕ)
    → (lookup id (insert id seq m) ≡ some seq) × (lookup id (remove id (insert id seq m)) ≡ none)
seq_after id seq m =
    ground
      (arith, lookup-insert id id seq m, lookup-remove id id (insert id seq m), nat_beq_iff id id)

submit_for-Answered :
    (c : Crates) (share : Share) (info : Sv1JobInfo) (s : Sv1UpState)
    → Fits c share info
    → Answered share info s.user_name s.version_mask (submit_for c share (some info) s)
unfolding submit_for note_submit take_seq sv2_submit_to_sv1 sv2_standard_submit_to_sv1
submit_for-Answered c (extended_share share) info s fits =
    let (found, gone) = seq_after s.next_submit_id share.sequence_number s.submit_seq in
    rw fits (_, refl, refl, refl, refl, refl, found, gone)
submit_for-Answered c (standard_share share) info s (e, here, fits) =
    let (found, gone) = seq_after s.next_submit_id share.sequence_number s.submit_seq in
    rw (here, fits) (_, refl, refl, refl, refl, refl, found, gone)
submit_for-Answered c other_frame info s fits = absurd fits

just_noted :
    (n : Notify) (s : Sv1UpState) (job : ℕ)
    → job ≡ s.next_job_id
    → s.next_job_id + 1 < 2 ^ 32
    → ((note_job n s).next_job_id ≡ job + 1)
      × (lookup job (note_job n s).job_map ≡ some (job_info n s))
unfolding note_job
just_noted n s job same few = (
  omega arith,
  ground (
    arith,
    lookup-insert s.next_job_id job (job_info n s) (room_for_job s),
    nat_beq_iff s.next_job_id job,
  ),
)

-- A share for a job that came `ns` jobs ago becomes the pool's mining.submit: under the pool's id of
-- that job, the worker's name and the rolled bits of its version, with the extranonce that belongs to
-- the job, and the pool's answer to it leads back to the share's sequence number, once. The map still
-- holds the job as long as it was not emptied since, so up to 64 jobs; job ids are below 2^32.
pub on_share-Answered :
    (c : Crates) (n : Notify) (ns : List Notify) (share : Share) (s : Sv1UpState)
    → job_of share ≡ s.next_job_id
    → length (note_job n s).job_map + length ns ≤ 64
    → s.next_job_id + 1 + length ns < 2 ^ 32
    → Fits c share (job_info n s)
    → Answered share
        (job_info n s)
        s.user_name
        s.version_mask
        (on_share c share (note_jobs ns (note_job n s)))
unfolding on_share note_job
on_share-Answered c n ns share s same small few fits =
    let s' = note_jobs ns (note_job n s) in
    let (user, mask) = note_jobs-static ns (note_job n s) in
    let (next, noted) = just_noted n s (job_of share) same (omega arith) in
    subst (λ u. Answered share (job_info n s) u s.version_mask (on_share c share s')) user
      (subst (λ m. Answered share (job_info n s) s'.user_name m (on_share c share s')) mask
        (rw
          (note_jobs-kept ns (note_job n s) (job_of share) (job_info n s) small (omega arith)
            (omega arith) noted)
          (submit_for-Answered c share (job_info n s) s' fits)))
