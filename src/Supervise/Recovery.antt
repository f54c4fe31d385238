-- ===== src/Supervise/Recovery.antt =====
-- src/proto/relay.rs and src/proto/sv2/relay.rs, `supervise_upstream`: when its loop ends, and what the
-- session serves then.
use blitzpool_rental_proxy.Prelude.{
  ◌≡◌, Text, refl, sym, ◌∙◌, ℕ, suc, ◌≤◌, Bool, true, false, List, [], ◌∷◌, ◌++◌, length, nat_beq,
  nat_beq_iff, Bool-cases, inl, inr, arith,
}
use blitzpool_rental_proxy.Session.{Routing, idle, rented}
use blitzpool_rental_proxy.Supervise.{
  Switchable, Lawful, Round, Ending, superseded, re_established, waiting, Turn, slept, attempt,
  after_attempt, recover_turn, recover, supervise_upstream, next_backoff, first_backoff,
  switch_to_order,
}
use blitzpool_rental_proxy.Supervise.Failover.{Switched, switch_to_order-Switched}

module _ {S : Type 0} where
  -- The loop is over after so many sleeps.
  abbrev pub Ends : ℕ → Turn Ending S → Type 0
  Ends n (superseded, sleeps, s) = length sleeps ≤ n
  Ends n (re_established, sleeps, s) = length sleeps ≤ n
  Ends n (waiting, sleeps, s) = ⊥

  later : (n backoff : ℕ) (turn : Turn Ending S) → Ends n turn → Ends (suc n) (slept backoff turn)
  later n backoff (superseded, sleeps, s) h = omega (arith, h)
  later n backoff (re_established, sleeps, s) h = omega (arith, h)
  later n backoff (waiting, sleeps, s) h = h

module _ {C S : Type 0} (ops : Switchable C S) where
  after_works :
      (backoff : ℕ) (rest : S → Turn Ending S) (result : Bool × S)
      → result.0 ≡ true
      → Ends 0 (after_attempt ops backoff rest result)
  unfolding after_attempt
  after_works backoff rest (true, s) h = omega arith
  after_works backoff rest (false, s) h = cc

module _ {W C S : Type 0} (ops : Switchable C S) where
  -- What happens while the supervisor sleeps leaves the routing as it is.
  abbrev pub Quiet : List (Round W C S) → Type 0
  Quiet [] = Unit
  Quiet (r ∷ rounds) = ((s : S) → ops.routing_of (r.between s) ≡ ops.routing_of s) × Quiet rounds

module _ {C S : Type 0} (ops : Switchable C S) (laws : Lawful ops) where
  of_Switched :
      (id : Text) (s : S) (result : Bool × S)
      → ops.routing_of s ≡ rented id
      → Switched ops laws id s result
      → ops.routing_of result.1 ≡ ops.routing_of s
  of_Switched id s (true, s') e h = h ∙ sym e
  of_Switched id s (false, s') e h = h.0

  after_attempt-routing :
      (backoff : ℕ) (rest : S → Turn Ending S) (routing : Routing) (result : Bool × S)
      → ops.routing_of result.1 ≡ routing
      → ((s : S) → ops.routing_of s ≡ routing → ops.routing_of (rest s).2 ≡ routing)
      → ops.routing_of (after_attempt ops backoff rest result).2 ≡ routing
  unfolding after_attempt
  after_attempt-routing backoff rest routing (true, s) e h = laws.recovered_routing s ∙ e
  after_attempt-routing backoff rest routing (false, s) e h = h s e

module _ {W C S : Type 0} (ops : Switchable C S) (laws : Lawful ops) where
  attempt-routing :
      (routing : Routing) (r : Round W C S) (s : S)
      → ops.routing_of s ≡ routing
      → ops.routing_of (attempt ops routing r s).1 ≡ ops.routing_of s
  unfolding attempt
  attempt-routing idle r s e = laws.revert_idle r.first s e ∙ sym e
  attempt-routing (rented id) r s e =
      of_Switched ops laws id s (switch_to_order ops r id s) e
        (switch_to_order-Switched ops laws r id s)

  recover-routing :
      (generation : ℕ) (rounds : List (Round W C S)) (backoff : ℕ) (routing : Routing) (s : S)
      → Quiet ops rounds
      → ops.routing_of s ≡ routing
      → ops.routing_of (recover ops generation rounds backoff s).2 ≡ routing
  unfolding recover recover_turn
  recover-routing generation [] backoff routing s quiet e = e
  recover-routing generation (r ∷ rounds) backoff routing s quiet e =
      let e1 = quiet.0 s ∙ e in
      elim (Bool-cases (nat_beq (ops.generation_of (r.between s)) generation)) [
        | inl c ↦ rw c (
            after_attempt-routing ops laws backoff _ routing
              (attempt ops (ops.routing_of (r.between s)) r (r.between s))
              (attempt-routing (ops.routing_of (r.between s)) r (r.between s) refl ∙ e1)
              (λ s' e'.
                recover-routing generation rounds (next_backoff backoff) routing s' quiet.1 e'))
        | inr c ↦ rw c e1
      ]

  -- As long as nothing else changes the routing, the supervisor does not: the session serves the same
  -- order as before, or none as before, whether the loop connected again, to either target, or not.
  pub supervise_upstream-routing :
      (generation : ℕ) (rounds : List (Round W C S)) (s : S)
      → Quiet ops rounds
      → ops.routing_of (supervise_upstream ops generation rounds s).2 ≡ ops.routing_of s
  unfolding supervise_upstream
  supervise_upstream-routing generation rounds s quiet =
      elim (Bool-cases (nat_beq (ops.generation_of s) generation)) [
        | inl e ↦ rw e (recover-routing generation rounds first_backoff _ s quiet refl)
        | inr e ↦ rw e refl
      ]

module _ {C S : Type 0} (ops : Switchable C S) where
  after_any :
      (n backoff : ℕ) (rest : S → Turn Ending S) (routing : Routing) (result : Bool × S)
      → ops.routing_of result.1 ≡ routing
      → ((s : S) → ops.routing_of s ≡ routing → Ends n (rest s))
      → Ends (suc n) (after_attempt ops backoff rest result)
  unfolding after_attempt
  after_any n backoff rest routing (true, s) e h = omega arith
  after_any n backoff rest routing (false, s) e h = later n backoff (rest s) (h s e)

module _ {W C S : Type 0} (ops : Switchable C S) (laws : Lawful ops) where
  -- An attempt of this round succeeds, while the upstream of the generation is the current one and the
  -- session serves as given.
  abbrev pub Works : ℕ → Routing → Round W C S → Type 0
  Works generation routing r =
      (s : S)
      → ops.generation_of s ≡ generation
      → ops.routing_of s ≡ routing
      → (attempt ops (ops.routing_of s) r s).0 ≡ true

  recover-Ends :
      (generation : ℕ) (routing : Routing) (before : List (Round W C S)) (r : Round W C S)
      (after : List (Round W C S)) (backoff : ℕ) (s : S)
      → Works generation routing r
      → Quiet ops (before ++ r ∷ after)
      → ops.routing_of s ≡ routing
      → Ends (length before) (recover ops generation (before ++ r ∷ after) backoff s)
  unfolding recover recover_turn
  recover-Ends generation routing [] r after backoff s works quiet e =
      elim (Bool-cases (nat_beq (ops.generation_of (r.between s)) generation)) [
        | inl c ↦ rw c (
            after_works ops backoff _ _
              (works (r.between s) ((nat_beq_iff _ generation).0 c) (quiet.0 s ∙ e)))
        | inr c ↦ rw c (omega arith)
      ]
  recover-Ends generation routing (q ∷ before) r after backoff s works quiet e =
      elim (Bool-cases (nat_beq (ops.generation_of (q.between s)) generation)) [
        | inl c ↦ rw c (
            after_any ops (length before) backoff _ routing
              (attempt ops (ops.routing_of (q.between s)) q (q.between s))
              (attempt-routing ops laws (ops.routing_of (q.between s)) q (q.between s) refl
                ∙ quiet.0 s
                ∙ e)
              (λ s' e'.
                recover-Ends generation routing before r after (next_backoff backoff) s' works
                  quiet.1 e'))
        | inr c ↦ rw c (omega arith)
      ]

  -- Once an attempt can succeed the supervisor's loop is over, at the latest in that round: it slept at
  -- most as often as there were rounds before, whatever these did. That is while nothing else changes
  -- what the session serves.
  pub supervise_upstream-Ends :
      (generation : ℕ) (before : List (Round W C S)) (r : Round W C S) (after : List (Round W C S))
      (s : S)
      → Works generation (ops.routing_of s) r
      → Quiet ops (before ++ r ∷ after)
      → Ends (length before) (supervise_upstream ops generation (before ++ r ∷ after) s)
  unfolding supervise_upstream
  supervise_upstream-Ends generation before r after s works quiet =
      elim (Bool-cases (nat_beq (ops.generation_of s) generation)) [
        | inl e ↦ rw e (
            recover-Ends generation (ops.routing_of s) before r after first_backoff s works quiet
              refl)
        | inr e ↦ rw e (omega arith)
      ]
