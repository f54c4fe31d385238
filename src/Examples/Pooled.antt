-- ===== src/Examples/Pooled.antt =====
-- An SV1 miner behind an SV2 pool, under the theorem on the answers to its submits.
use blitzpool_rental_proxy.Prelude.{
  Text, ℕ, ◌≡◌, refl, true, false, none, List, [], ◌∷◌, map, arith,
}
use blitzpool_rental_proxy.Prelude.Strings.{codes}
use blitzpool_rental_proxy.Session.{rented}
use blitzpool_rental_proxy.Relay.{Inner}
use blitzpool_rental_proxy.Relay.Translator.{
  Submitted, Lines, on_pool_frame, accepted, submit_success, submit_error,
}
use blitzpool_rental_proxy.Relay.Translator.Answers.{acked, unacked, id_of}
use blitzpool_rental_proxy.Relay.Translator.Run.{
  Event, submitted, framed, run, fresh_channel, run-answered,
}
use blitzpool_rental_proxy.Orders.Store.{select}
use blitzpool_rental_proxy.Examples.Data.{whole, pool, threshold}

abbrev rented_session : Inner ℕ
rented_session = record {
  generation = 1;
  target = pool;
  generation_counter = 1;
  routing = rented (codes "a");
  current_difficulty = 8;
  pending = [];
  extranonce_capable = true;
  configure = none;
  hashrate = record { window = 600; samples = [] };
  delivered_work = 0;
  accepted_shares = 0;
  submitted_shares = 3;
  accept_low_logged = false;
  label = codes "v.rig";
  translating = true;
  extranonce1 = [];
  extranonce2_size = 4;
  pending_prelude = [];
  subscribed = true;
}

abbrev plain_lines : Lines ℕ
plain_lines = record { notify_line = λ p j clean. none; set_difficulty_line = λ diff. [] }

abbrev submit_as : Text → Submitted
submit_as id = record { id = id; job_id = none; has_version_bits = false }

-- Three submits; the pool refuses the second.
abbrev three_submits : List Event
three_submits =
    submitted (submit_as (codes "4"))
    ∷ submitted (submit_as (codes "5"))
    ∷ submitted (submit_as (codes "6"))
    ∷ framed 5 1 (submit_error 1)
    ∷ []

run-answered_example :
    let met = run threshold plain_lines three_submits rented_session (fresh_channel 7) in
    let done = on_pool_frame threshold plain_lines 6 1 (submit_success 1 1) met.0 met.1 in
    (done.results ≡ map accepted (map id_of (select (acked 1) met.1.pending_submits)))
    × (done.state.pending_submits ≡ select (unacked 1) met.1.pending_submits)
run-answered_example =
    run-answered threshold plain_lines 7 6 1 1 1 three_submits rented_session (omega arith)

-- Only the first is answered; the third still waits.
answers_of_three :
    let met = run threshold plain_lines three_submits rented_session (fresh_channel 7) in
    let done = on_pool_frame threshold plain_lines 6 1 (submit_success 1 1) met.0 met.1 in
    (done.results ≡ (codes "4", true) ∷ []) × (done.state.pending_submits ≡ (2, codes "6") ∷ [])
unfolding run on_pool_frame
answers_of_three = (refl, refl)
