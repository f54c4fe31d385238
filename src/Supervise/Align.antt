-- ===== src/Supervise/Align.antt =====
-- src/proto/sv2/relay.rs, `reconcile_routing` and `spawn_switch_retry`: the session comes to serve the
-- rig's active rental.
use blitzpool_rental_proxy.Prelude.{
  ◌≡◌, refl, ◌∙◌, ap, Text, ℕ, Bool, true, false, Option, none, some, ◌⊎◌, inl, inr, List, [], ◌∷◌,
  Bool-cases, text_eq, text_beq_iff, if◌then◌else◌,
}
use blitzpool_rental_proxy.Prelude.Float.{Float}
use blitzpool_rental_proxy.Session.{Routing, idle, rented}
use blitzpool_rental_proxy.Orders.{Order}
use blitzpool_rental_proxy.Orders.Store.{active_for_worker}
use blitzpool_rental_proxy.Supervise.{
  Switchable, Lawful, Round, Turn, RetryEnding, torn_down, no_rental, converged, switched, retrying,
  switch_to_order, serves, retry_unless, toward, reconcile_routing, after_switch, retry_onto,
  retry_turn, retry, next_backoff, slept,
}
use blitzpool_rental_proxy.Supervise.Failover.{Switched, switch_to_order-Switched}

serves-eq : (id : Text) (routing : Routing) → serves id routing ≡ true → routing ≡ rented id
serves-eq id idle h = cc
serves-eq id (rented order_id) h = ap rented ((text_beq_iff order_id id).0 h)

module _ {C S : Type 0} (ops : Switchable C S) where
  -- The session serves the order, or it serves what it did and a retry is started.
  abbrev pub AlignedOrRetried : Text → S → Bool × S → Type 0
  AlignedOrRetried id s (false, s') = ops.routing_of s' ≡ rented id
  AlignedOrRetried id s (true, s') = ops.routing_of s' ≡ ops.routing_of s

  of_Switched :
      (laws : Lawful ops) (id : Text) (s : S) (result : Bool × S)
      → Switched ops laws id s result
      → AlignedOrRetried id s (retry_unless result)
  of_Switched laws id s (true, s') h = h
  of_Switched laws id s (false, s') h = h.0

module _ {W C S : Type 0} ⦃f : Float W⦄ (ops : Switchable C S) (laws : Lawful ops) where
  -- Before a member is bundled onto a rig that has an active rental, the session serves that rental, or
  -- else it serves what it did before and the background retry is started.
  pub reconcile_routing-AlignedOrRetried :
      (o : Order W) (r : Round W C S) (s : S)
      → AlignedOrRetried ops o.id s (reconcile_routing ops (some o) r s)
  unfolding reconcile_routing toward
  reconcile_routing-AlignedOrRetried o r s = elim (Bool-cases (serves o.id (ops.routing_of s))) [
    | inl e ↦ rw e (serves-eq o.id (ops.routing_of s) e)
    | inr e ↦ rw e (
        of_Switched ops laws o.id s (switch_to_order ops r o.id s)
          (switch_to_order-Switched ops laws r o.id s))
  ]

module _ {W C S : Type 0} where
  -- Some round has it.
  abbrev pub Once : (Round W C S → Type 0) → List (Round W C S) → Type 0
  Once P [] = ⊥
  Once P (r ∷ rounds) = P r ⊎ Once P rounds

module _ {W C S : Type 0} ⦃f : Float W⦄ (ops : Switchable C S) (laws : Lawful ops) where
  -- The rig's active rental, as a round finds it.
  abbrev pub Rental : Text → Order W → Round W C S → Type 0
  Rental worker o r = active_for_worker r.up worker r.now r.store ≡ some o

  -- The reason for the way a retry ends.
  abbrev pub Justified : Text → List (Round W C S) → Turn RetryEnding S → Type 0
  Justified worker rounds (switched id, sleeps, s) =
      (ops.routing_of s ≡ rented id)
      × Once (λ r. (o : Order W) × Rental worker o r × (o.id ≡ id)) rounds
  Justified worker rounds (converged, sleeps, s) =
      Once (λ r. (o : Order W) × Rental worker o r × (ops.routing_of s ≡ rented o.id)) rounds
  Justified worker rounds (no_rental, sleeps, s) =
      Once (λ r. active_for_worker r.up worker r.now r.store ≡ none) rounds
  Justified worker rounds (torn_down, sleeps, s) = Once (λ r. r.alive ≡ false) rounds
  Justified worker rounds (retrying, sleeps, s) = Unit

  in_later_round :
      (worker : Text) (r : Round W C S) (rounds : List (Round W C S)) (turn : Turn RetryEnding S)
      → Justified worker rounds turn
      → Justified worker (r ∷ rounds) turn
  in_later_round worker r rounds (switched id, sleeps, s) h = (h.0, inr h.1)
  in_later_round worker r rounds (converged, sleeps, s) h = inr h
  in_later_round worker r rounds (no_rental, sleeps, s) h = inr h
  in_later_round worker r rounds (torn_down, sleeps, s) h = inr h
  in_later_round worker r rounds (retrying, sleeps, s) h = tt

  asleep :
      (worker : Text) (rounds : List (Round W C S)) (backoff : ℕ) (turn : Turn RetryEnding S)
      → Justified worker rounds turn
      → Justified worker rounds (slept backoff turn)
  asleep worker rounds backoff (switched id, sleeps, s) h = h
  asleep worker rounds backoff (converged, sleeps, s) h = h
  asleep worker rounds backoff (no_rental, sleeps, s) h = h
  asleep worker rounds backoff (torn_down, sleeps, s) h = h
  asleep worker rounds backoff (retrying, sleeps, s) h = h

  module _ (worker : Text) (r : Round W C S) (rounds : List (Round W C S))
      (rest : S → Turn RetryEnding S) (later : (s : S) → Justified worker rounds (rest s)) where
    after_switch-Justified :
        (o : Order W) (s : S) (result : Bool × S)
        → Rental worker o r
        → Switched ops laws o.id s result
        → Justified worker (r ∷ rounds) (after_switch ops o.id rest result)
    unfolding after_switch
    after_switch-Justified o s (true, s') here h =
        (laws.reconnect_routing s' ∙ h, inl (o, here, refl))
    after_switch-Justified o s (false, s') here h =
        in_later_round worker r rounds (rest s') (later s')

    retry_onto-Justified :
        (found : Option (Order W)) (s : S)
        → active_for_worker r.up worker r.now r.store ≡ found
        → Justified worker (r ∷ rounds) (retry_onto ops r rest found s)
    unfolding retry_onto
    retry_onto-Justified none s here = inl here
    retry_onto-Justified (some o) s here = elim (Bool-cases (serves o.id (ops.routing_of s))) [
      | inl e ↦ rw e (inl (o, here, serves-eq o.id (ops.routing_of s) e))
      | inr e ↦ rw e (
          after_switch-Justified o s (switch_to_order ops r o.id s) here
            (switch_to_order-Switched ops laws r o.id s))
    ]

    of_alive :
        (alive : Bool) (s : S)
        → r.alive ≡ alive
        → Justified worker (r ∷ rounds) (
            if alive
            then retry_onto ops r rest (active_for_worker r.up worker r.now r.store) s
            else (torn_down, [], s))
    of_alive true s e = retry_onto-Justified _ s refl
    of_alive false s e = inl e

    retry_turn-Justified : (s : S) → Justified worker (r ∷ rounds) (retry_turn ops worker r rest s)
    unfolding retry_turn
    retry_turn-Justified s = of_alive r.alive s refl

  -- A retry ends for a reason only: it switched, and then the session serves an order that was the
  -- rig's active rental in some round; or the session serves such an order already; or a round found
  -- no active rental; or the session was gone.
  pub retry-Justified :
      (worker : Text) (rounds : List (Round W C S)) (backoff : ℕ) (s : S)
      → Justified worker rounds (retry ops worker rounds backoff s)
  unfolding retry
  retry-Justified worker [] backoff s = tt
  retry-Justified worker (r ∷ rounds) backoff s = asleep worker (r ∷ rounds) backoff _ (
      retry_turn-Justified worker r rounds _
        (λ s'. retry-Justified worker rounds (next_backoff backoff) s') (r.between s))
