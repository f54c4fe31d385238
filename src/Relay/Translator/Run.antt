-- ===== src/Relay/Translator/Run.antt =====
-- src/proto/relay.rs, the two tasks over one channel: a run of what they meet, and the answers a
-- miner then gets.
use blitzpool_rental_proxy.Prelude.{
  ℕ, ◌+◌, ◌^◌, ◌<◌, ◌≡◌, refl, ap, subst, none, List, [], ◌∷◌, map, arith,
}
use blitzpool_rental_proxy.Prelude.Float.{Float}
use blitzpool_rental_proxy.Orders.Store.{select}
use blitzpool_rental_proxy.Relay.{Inner}
use blitzpool_rental_proxy.Relay.Translator.{
  Sv2UpState, Submitted, PoolFrame, Lines, on_submit, on_pool_frame, on_success, accepted,
  submit_success,
}
use blitzpool_rental_proxy.Relay.Translator.Answers.{
  Waiting, acked, unacked, id_of, on_submit-Waiting, on_pool_frame-Waiting, drain_acked-select,
}
use blitzpool_rental_proxy.Translate.{Threshold}

-- The state the tasks start in.
abbrev pub fresh_channel : ℕ → Sv2UpState
fresh_channel channel_id = record {
  channel_id = channel_id;
  next_seq = 0;
  latest_version = 0;
  job_versions = [];
  pending_submits = [];
  prev = none;
  job = none;
}

-- What the two tasks meet, in the order in which they meet it.
pub data Event : Type 0 where
  submitted : Submitted → Event
  -- the time, the generation of the reader
  framed : ℕ → ℕ → PoolFrame → Event

abbrev pub submits : List Event → ℕ
submits [] = 0
submits (submitted _ ∷ events) = submits events + 1
submits (framed _ _ _ ∷ events) = submits events

module _ {W : Type 0} ⦃f : Float W⦄ (t : Threshold W) (l : Lines W) where
  unfoldable pub run : List Event → Inner W → Sv2UpState → Inner W × Sv2UpState
  unfolding on_submit on_pool_frame
  run [] i s = (i, s)
  run (submitted submit ∷ events) i s = run events i (on_submit submit s).1
  run (framed now generation frame ∷ events) i s =
      let done = on_pool_frame t l now generation frame i s in run events done.inner done.state

  run-Waiting :
      (n : ℕ) (events : List Event) (i : Inner W) (s : Sv2UpState)
      → Waiting n s
      → n + submits events < 2 ^ 32
      → Waiting (n + submits events) (run events i s).1
  unfolding run
  run-Waiting n [] i s h small = subst (λ k. Waiting k s) (omega arith) h
  run-Waiting n (submitted submit ∷ events) i s h small =
      let rest =
        run-Waiting (n + 1) events i (on_submit submit s).1
          (on_submit-Waiting n submit s h (omega (arith, small))) (omega (arith, small)) in
      subst (λ k. Waiting k (run events i (on_submit submit s).1).1) (omega arith) rest
  run-Waiting n (framed now generation frame ∷ events) i s h small =
      let done = on_pool_frame t l now generation frame i s in
      run-Waiting n events done.inner done.state
        (on_pool_frame-Waiting t l n now generation frame i s h) small

  -- After any run of fewer than 2^32 submits and of pool frames in any order, from a fresh channel, a
  -- success up to the sequence number `last` answers true to exactly the waiting submits numbered at
  -- most `last`, in the order of their submission, and leaves the others waiting, in order.
  pub run-answered :
      (channel now generation last count : ℕ) (events : List Event) (i : Inner W)
      → submits events < 2 ^ 32
      → let met = run events i (fresh_channel channel) in
        let done = on_pool_frame t l now generation (submit_success last count) met.0 met.1 in
        (done.results ≡ map accepted (map id_of (select (acked last) met.1.pending_submits)))
        × (done.state.pending_submits ≡ select (unacked last) met.1.pending_submits)
  unfolding on_pool_frame on_success
  run-answered channel now generation last count events i small =
      let met = run events i (fresh_channel channel) in
      let waiting =
        run-Waiting 0 events i (fresh_channel channel) (refl, omega arith) (omega (arith, small)) in
      let (out, left) =
        drain_acked-select 0 (0 + submits events) last met.1.pending_submits waiting.1 in
      (ap (map accepted) out, left)
