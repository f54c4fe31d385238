-- ===== src/Relay/Translator/Answers.antt =====
-- src/proto/relay.rs, `drain_acked` and `remove_seq` under the two tasks: which submits of the miner are
-- answered.
use blitzpool_rental_proxy.Prelude.{
  Text, ℕ, ◌+◌, ◌^◌, ◌≤◌, ◌<◌, ◌≡◌, refl, ap, Bool, true, false, not, Option, none, some, List, [],
  ◌∷◌, ◌++◌, map, if◌then◌else◌, leb, nat_beq, arith, Bool-cases, inl, inr, is_some,
}
use blitzpool_rental_proxy.Prelude.Float.{Float}
use blitzpool_rental_proxy.Orders.Store.{select}
use blitzpool_rental_proxy.Relay.{Inner, drain_acked, remove_seq, set_translate_difficulty}
use blitzpool_rental_proxy.Relay.Translator.{
  Sv2UpState, Submitted, PoolFrame, Lines, on_submit, on_pool_frame, on_success, on_refusal, on_job,
  on_target, emit_translate_notify, stash, note_version, quiet, new_job, prev_hash, target,
  submit_success, submit_error,
}
use blitzpool_rental_proxy.Translate.{
  Threshold, NewExtendedMiningJob, SetNewPrevHash, difficulty_from_target,
}

-- The sequence numbers rise, from `lo` on and below `hi`.
abbrev pub Rising : ℕ → ℕ → List (ℕ × Text) → Type 0
Rising lo hi [] = lo ≤ hi
Rising lo hi ((seq, id) ∷ q) = (lo ≤ seq) × Rising (seq + 1) hi q

Rising-lower : (lo lo' hi : ℕ) (q : List (ℕ × Text)) → lo' ≤ lo → Rising lo hi q → Rising lo' hi q
Rising-lower lo lo' hi [] le h = omega (arith, le, h)
Rising-lower lo lo' hi ((seq, id) ∷ q) le h = (omega (arith, le, h.0), h.1)

Rising-push :
    (lo hi : ℕ) (q : List (ℕ × Text)) (id : Text)
    → Rising lo hi q
    → Rising lo (hi + 1) (q ++ (hi, id) ∷ [])
Rising-push lo hi [] id h = (h, omega arith)
Rising-push lo hi ((seq, old) ∷ q) id h = (h.0, Rising-push (seq + 1) hi q id h.1)

remove_seq-Rising :
    (lo hi seq : ℕ) (q : List (ℕ × Text)) → Rising lo hi q → Rising lo hi (remove_seq q seq).1
unfolding remove_seq
remove_seq-Rising lo hi seq [] h = h
remove_seq-Rising lo hi seq ((s, id) ∷ q) h = elim (Bool-cases (nat_beq s seq)) [
  | inl e ↦ rw e (Rising-lower (s + 1) lo hi q (omega (arith, h.0)) h.1)
  | inr e ↦ rw e (h.0, remove_seq-Rising (s + 1) hi seq q h.1)
]

drain_acked-Rising :
    (lo hi last : ℕ) (q : List (ℕ × Text)) → Rising lo hi q → Rising lo hi (drain_acked q last).1
unfolding drain_acked
drain_acked-Rising lo hi last [] h = h
drain_acked-Rising lo hi last ((s, id) ∷ q) h = elim (Bool-cases (leb s last)) [
  | inl e ↦ rw e (
      Rising-lower (s + 1) lo hi (drain_acked q last).1 (omega (arith, h.0))
        (drain_acked-Rising (s + 1) hi last q h.1))
  | inr e ↦ rw e h
]

abbrev pub acked : ℕ → ℕ × Text → Bool
acked last e = leb e.0 last

abbrev pub unacked : ℕ → ℕ × Text → Bool
unacked last e = not (leb e.0 last)

abbrev pub id_of : ℕ × Text → Text
id_of e = e.1

none_acked :
    (lo hi last : ℕ) (q : List (ℕ × Text))
    → Rising lo hi q
    → last < lo
    → (select (acked last) q ≡ []) × (select (unacked last) q ≡ q)
unfolding select
none_acked lo hi last [] h small = (refl, refl)
none_acked lo hi last ((s, id) ∷ q) h small =
    ground (arith, none_acked (s + 1) hi last q h.1 (omega (arith, small, h.0)), h.0, small)

pub drain_acked-select :
    (lo hi last : ℕ) (q : List (ℕ × Text))
    → Rising lo hi q
    → ((drain_acked q last).0 ≡ map id_of (select (acked last) q))
      × ((drain_acked q last).1 ≡ select (unacked last) q)
unfolding drain_acked select
drain_acked-select lo hi last [] h = (refl, refl)
drain_acked-select lo hi last ((s, id) ∷ q) h = elim (Bool-cases (leb s last)) [
  | inl e ↦
      let (out, left) = drain_acked-select (s + 1) hi last q h.1 in
      rw e (ap (λ x. id ∷ x) out, left)
  | inr e ↦
      let (out, left) = none_acked (s + 1) hi last q h.1 (ground arith) in
      rw (e, out, left) (refl, refl)
]

-- The next sequence number is `n`, and the queue rises below it.
abbrev pub Waiting : ℕ → Sv2UpState → Type 0
Waiting n s = (s.next_seq ≡ n) × Rising 0 n s.pending_submits

pub on_submit-Waiting :
    (n : ℕ) (submit : Submitted) (s : Sv2UpState)
    → Waiting n s
    → n + 1 < 2 ^ 32
    → Waiting (n + 1) (on_submit submit s).1
unfolding on_submit
on_submit-Waiting n submit s (at, h) small =
    rw at (omega (arith, small), Rising-push 0 n s.pending_submits submit.id h)

module _ {W : Type 0} where
  stash-state :
      (generation : ℕ) (line : Option Text) (i : Inner W) (s : Sv2UpState)
      → (stash generation line i s).state ≡ s
  unfolding stash
  stash-state generation none i s = refl
  stash-state generation (some line) i s = refl

  emit_translate_notify-state :
      (l : Lines W) (generation : ℕ) (prev : Option SetNewPrevHash)
      (job : Option NewExtendedMiningJob) (clean : Bool) (i : Inner W) (s : Sv2UpState)
      → (emit_translate_notify l generation prev job clean i s).state ≡ s
  unfolding emit_translate_notify
  emit_translate_notify-state l generation (some p) (some j) clean i s =
      stash-state generation (l.notify_line p j clean) i s
  emit_translate_notify-state l generation (some p) none clean i s = refl
  emit_translate_notify-state l generation none job clean i s = refl

  on_job-Waiting :
      (n : ℕ) (l : Lines W) (generation : ℕ) (j : NewExtendedMiningJob) (i : Inner W)
      (s : Sv2UpState)
      → Waiting n s
      → Waiting n (on_job l generation j i s).state
  unfolding on_job note_version
  on_job-Waiting n l generation j i s h = elim (Bool-cases (is_some j.min_ntime)) [
    | inl e ↦
        rw (e, emit_translate_notify-state l generation s.prev (some j) false i (note_version j s))
          h
    | inr e ↦ rw e h
  ]

module _ {W : Type 0} ⦃f : Float W⦄ (t : Threshold W) (l : Lines W) where
  on_target-Waiting :
      (n : ℕ) (generation : ℕ) (bytes : List ℕ) (i : Inner W) (s : Sv2UpState)
      → Waiting n s
      → Waiting n (on_target t l generation bytes i s).state
  unfolding on_target
  on_target-Waiting n generation bytes i s h =
      of_current (set_translate_difficulty generation (difficulty_from_target t bytes) i)
    where
      of_current :
          (result : Bool × Inner W)
          → Waiting n
              (if result.0
                then stash generation
                    (some (l.set_difficulty_line (difficulty_from_target t bytes)))
                    result.1
                    s
                else quiet result.1 s).state
      of_current (true, i') =
          rw
            (stash-state generation (some (l.set_difficulty_line (difficulty_from_target t bytes)))
              i' s)
            h
      of_current (false, i') = h

  pub on_pool_frame-Waiting :
      (n : ℕ) (now generation : ℕ) (frame : PoolFrame) (i : Inner W) (s : Sv2UpState)
      → Waiting n s
      → Waiting n (on_pool_frame t l now generation frame i s).state
  unfolding on_pool_frame on_success on_refusal
  on_pool_frame-Waiting n now generation (new_job j) i s h = on_job-Waiting n l generation j i s h
  on_pool_frame-Waiting n now generation (prev_hash p) i s h =
      rw
        (emit_translate_notify-state l generation (some p) s.job true i
          (record s { prev = some p }))
        h
  on_pool_frame-Waiting n now generation (target bytes) i s h =
      on_target-Waiting n generation bytes i s h
  on_pool_frame-Waiting n now generation (submit_success last count) i s h =
      (h.0, drain_acked-Rising 0 n last s.pending_submits h.1)
  on_pool_frame-Waiting n now generation (submit_error seq) i s h =
      (h.0, remove_seq-Rising 0 n seq s.pending_submits h.1)
