-- ===== src/Supervise.antt =====
-- src/proto/relay.rs and src/proto/sv2/relay.rs, what both kinds of session do with a switch that may
-- fail: `switch_to_order`, `supervise_upstream`, and of the SV2 session `reconcile_routing` and
-- `spawn_switch_retry`. A kind of session is a record of its operations. Each connection that is tried
-- and what happens while a task sleeps comes from outside, one `Round` for each turn of a loop.
pub mod Backoff
pub mod Failover
pub mod Recovery
pub mod Align
pub mod Sessions
pub mod Laws
use blitzpool_rental_proxy.Prelude.{
  ◌≡◌, Text, ℕ, ◌*◌, Bool, true, false, Option, none, some, List, [], ◌∷◌, if◌then◌else◌, nat_beq,
  leb, ◌==◌, text_eq,
}
use blitzpool_rental_proxy.Prelude.Int.{ℤ}
use blitzpool_rental_proxy.Prelude.Float.{Float}
use blitzpool_rental_proxy.Session.{UpstreamTarget, Routing, idle, rented}
use blitzpool_rental_proxy.Orders.{Order}
use blitzpool_rental_proxy.Orders.Store.{OrderStore, get, active_for_worker}

-- A kind of session: `C` is how a connection goes, `S` the session's state. A result's Bool is `Ok`.
pub record Switchable (C S : Type 0) : Type 0 where
  pub generation_of : S → ℕ
  pub routing_of : S → Routing
  -- `swap_upstream`
  pub swap : UpstreamTarget → Routing → C → S → Bool × S
  pub revert : C → S → Bool × S
  pub force_reconnect : S → S
  -- what the supervisor does when it connected again
  pub on_recovered : S → S

-- Milliseconds.
abbrev pub first_backoff : ℕ
first_backoff = 500

abbrev pub longest_backoff : ℕ
longest_backoff = 30_000

-- (backoff * 2).min(30 s)
abbrev pub next_backoff : ℕ → ℕ
next_backoff backoff = if leb (backoff * 2) longest_backoff then backoff * 2 else longest_backoff

-- What a turn of a loop meets: what changed the session before, the orders, the time, and how a
-- connection to the first and to the second target of the turn goes.
pub record Round (W C S : Type 0) : Type 0 where
  pub between : S → S
  -- the session is still alive
  pub alive : Bool
  pub up : Bool
  pub store : OrderStore W
  pub now : ℤ
  pub first : C
  pub second : C

pub data Ending : Type 0 where
  -- another upstream is in place
  superseded : Ending
  re_established : Ending
  -- the rounds are over and the loop is not
  waiting : Ending

-- What a loop has after a turn: how it ends, the sleeps, and the session.
abbrev pub Turn : Type 0 → Type 0 → Type 0
Turn E S = E × List ℕ × S

abbrev pub slept : {E S : Type 0} → ℕ → Turn E S → Turn E S
slept backoff (ending, sleeps, s) = (ending, backoff ∷ sleeps, s)

-- What the code relies on of a kind of session.
pub record Lawful {C S : Type 0} (ops : Switchable C S) : Type 0 where
  pub swap_ok :
      (target : UpstreamTarget) (routing : Routing) (c : C) (s : S)
      → (ops.swap target routing c s).0 ≡ true
      → ops.routing_of (ops.swap target routing c s).1 ≡ routing
  pub swap_failed :
      (target : UpstreamTarget) (routing : Routing) (c : C) (s : S)
      → (ops.swap target routing c s).0 ≡ false
      → (ops.routing_of (ops.swap target routing c s).1 ≡ ops.routing_of s)
        × (ops.generation_of (ops.swap target routing c s).1 ≡ ops.generation_of s)
  pub revert_idle :
      (c : C) (s : S) → ops.routing_of s ≡ idle → ops.routing_of (ops.revert c s).1 ≡ idle
  pub revert_failed :
      (c : C) (s : S)
      → (ops.revert c s).0 ≡ false
      → (ops.routing_of (ops.revert c s).1 ≡ ops.routing_of s)
        × (ops.generation_of (ops.revert c s).1 ≡ ops.generation_of s)
  pub reconnect_routing : (s : S) → ops.routing_of (ops.force_reconnect s) ≡ ops.routing_of s
  pub recovered_routing : (s : S) → ops.routing_of (ops.on_recovered s) ≡ ops.routing_of s

module _ {C S : Type 0} (ops : Switchable C S) where
  unfoldable pub after_attempt : ℕ → (S → Turn Ending S) → Bool × S → Turn Ending S
  after_attempt backoff rest (true, s) = (re_established, [], ops.on_recovered s)
  after_attempt backoff rest (false, s) = slept backoff (rest s)

  abbrev pub switch_to : Text → UpstreamTarget → C → S → Bool × S
  switch_to order_id target c s = ops.swap target (rented order_id) c s

  unfoldable pub or_fallback : Text → Option UpstreamTarget → C → Bool × S → Bool × S
  or_fallback order_id fallback c (true, s) = (true, s)
  or_fallback order_id none c (false, s) = (false, s)
  or_fallback order_id (some target) c (false, s) = switch_to order_id target c s

module _ {W C S : Type 0} (ops : Switchable C S) where
  unfoldable pub onto_order : Text → Option (Order W) → C → C → S → Bool × S
  unfolding or_fallback
  onto_order order_id none c d s = (false, s)
  onto_order order_id (some o) c d s =
      or_fallback ops order_id o.fallback d (switch_to ops order_id o.target c s)

  unfoldable pub switch_to_order : Round W C S → Text → S → Bool × S
  unfolding onto_order
  switch_to_order r order_id s = onto_order order_id (get r.up order_id r.store) r.first r.second s

  -- One attempt of the supervisor, by what the session serves.
  unfoldable pub attempt : Routing → Round W C S → S → Bool × S
  unfolding switch_to_order
  attempt idle r s = ops.revert r.first s
  attempt (rented order_id) r s = switch_to_order r order_id s

  unfoldable pub recover_turn : ℕ → ℕ → Round W C S → (S → Turn Ending S) → S → Turn Ending S
  unfolding after_attempt attempt
  recover_turn generation backoff r rest s =
      if nat_beq (ops.generation_of s) generation
      then after_attempt ops backoff rest (attempt (ops.routing_of s) r s)
      else (superseded, [], s)

  -- The loop after the upstream of a generation dropped.
  unfoldable pub recover : ℕ → List (Round W C S) → ℕ → S → Turn Ending S
  unfolding recover_turn
  recover generation [] backoff s = (waiting, [], s)
  recover generation (r ∷ rounds) backoff s =
      recover_turn generation backoff r (λ s'. recover generation rounds (next_backoff backoff) s')
        (r.between s)

  -- A signal of `died_rx`.
  unfoldable pub supervise_upstream : ℕ → List (Round W C S) → S → Turn Ending S
  unfolding recover
  supervise_upstream generation rounds s =
      if nat_beq (ops.generation_of s) generation
      then recover generation rounds first_backoff s
      else (superseded, [], s)

pub data RetryEnding : Type 0 where
  torn_down : RetryEnding
  no_rental : RetryEnding
  converged : RetryEnding
  switched : Text → RetryEnding
  retrying : RetryEnding

-- current.as_deref() == Some(id)
abbrev pub serves : Text → Routing → Bool
serves id idle = false
serves id (rented order_id) = order_id == id

module _ {S : Type 0} where
  -- The Bool says that a retry is to be started.
  abbrev pub retry_unless : Bool × S → Bool × S
  retry_unless (true, s) = (false, s)
  retry_unless (false, s) = (true, s)

module _ {C S : Type 0} (ops : Switchable C S) where
  unfoldable pub after_switch : Text → (S → Turn RetryEnding S) → Bool × S → Turn RetryEnding S
  after_switch id rest (true, s) = (switched id, [], ops.force_reconnect s)
  after_switch id rest (false, s) = rest s

module _ {W C S : Type 0} ⦃f : Float W⦄ (ops : Switchable C S) where
  unfoldable pub retry_onto :
      Round W C S → (S → Turn RetryEnding S) → Option (Order W) → S → Turn RetryEnding S
  unfolding switch_to_order after_switch
  retry_onto r rest none s = (no_rental, [], s)
  retry_onto r rest (some o) s =
      if serves o.id (ops.routing_of s)
      then (converged, [], s)
      else after_switch ops o.id rest (switch_to_order ops r o.id s)

  unfoldable pub retry_turn : Text → Round W C S → (S → Turn RetryEnding S) → S → Turn RetryEnding S
  unfolding retry_onto active_for_worker
  retry_turn worker r rest s =
      if r.alive
      then retry_onto r rest (active_for_worker r.up worker r.now r.store) s
      else (torn_down, [], s)

  -- The task of `spawn_switch_retry`; it sleeps before each turn.
  unfoldable pub retry : Text → List (Round W C S) → ℕ → S → Turn RetryEnding S
  unfolding retry_turn
  retry worker [] backoff s = (retrying, [], s)
  retry worker (r ∷ rounds) backoff s =
      slept backoff
        (retry_turn worker r (λ s'. retry worker rounds (next_backoff backoff) s') (r.between s))

  unfoldable pub toward : Option (Order W) → Routing → Round W C S → S → Bool × S
  unfolding switch_to_order
  toward none idle r s = (false, s)
  toward none (rented stale) r s = (false, (ops.revert r.first s).1)
  toward (some o) current r s =
      if serves o.id current then (false, s) else retry_unless (switch_to_order ops r o.id s)

  -- The session before another member is bundled: whether a retry is started, and the session.
  unfoldable pub reconcile_routing : Option (Order W) → Round W C S → S → Bool × S
  unfolding toward
  reconcile_routing desired r s = toward desired (ops.routing_of s) r s
