-- ===== src/Supervise/Backoff.antt =====
-- src/proto/relay.rs and src/proto/sv2/relay.rs: how long the loops sleep between two attempts.
use native.Mathlib.Nat.{pow-suc}
use blitzpool_rental_proxy.Prelude.{
  ◌≡◌, ap, ◌∙◌, ℕ, suc, ◌*◌, ◌^◌, ◌≤◌, leb, if◌then◌else◌, Bool, true, false, Option, none, some,
  List, [], ◌∷◌, Text, Bool-cases, inl, inr, arith,
}
use blitzpool_rental_proxy.Prelude.Float.{Float}
use blitzpool_rental_proxy.Orders.{Order}
use blitzpool_rental_proxy.Supervise.{
  Switchable, Round, Turn, RetryEnding, next_backoff, retry, retry_turn, retry_onto, after_switch,
  switch_to_order, serves,
}

-- The sleep after `k` failures that were each slept on.
abbrev pub sleep_after : ℕ → ℕ
sleep_after k = if leb (500 * 2 ^ k) 30_000 then 500 * 2 ^ k else 30_000

-- The sleeps from the one after `k` failures on.
abbrev pub Paced : ℕ → List ℕ → Type 0
Paced k [] = Unit
Paced k (d ∷ sleeps) = (d ≡ sleep_after k) × (500 ≤ d) × (d ≤ 30_000) × Paced (suc k) sleeps

-- The loop sleeps for this long next.
abbrev At : ℕ → ℕ → Type 0
At k backoff = (backoff ≡ sleep_after k) × (500 ≤ backoff) × (backoff ≤ 30_000)

-- Doubling what is kept to a limit, and keeping it to the limit again.
next_backoff_capped :
    (n : ℕ)
    → next_backoff (if leb n 30_000 then n else 30_000)
      ≡ (if leb (n * 2) 30_000 then n * 2 else 30_000)
next_backoff_capped n = ground arith

doubled : (k : ℕ) → 500 * 2 ^ k * 2 ≡ 500 * 2 ^ (suc k)
doubled k = omega (arith, pow-suc 2 k)

next_backoff-At : (k backoff : ℕ) → At k backoff → At (suc k) (next_backoff backoff)
next_backoff-At k backoff h =
    let (at, low, high) = h in
    (
      ap next_backoff at
          ∙ next_backoff_capped (500 * 2 ^ k)
          ∙ ap (λ n. if leb n 30_000 then n else 30_000) (doubled k),
      ground arith,
      ground arith,
    )

module _ {C S : Type 0} (ops : Switchable C S) where
  after_switch-Paced :
      (id : Text) (rest : S → Turn RetryEnding S) (k : ℕ) (result : Bool × S)
      → ((s : S) → Paced k (rest s).1)
      → Paced k (after_switch ops id rest result).1
  unfolding after_switch
  after_switch-Paced id rest k (true, s) h = tt
  after_switch-Paced id rest k (false, s) h = h s

module _ {W C S : Type 0} ⦃f : Float W⦄ (ops : Switchable C S) where
  retry_onto-Paced :
      (r : Round W C S) (rest : S → Turn RetryEnding S) (k : ℕ) (o : Option (Order W)) (s : S)
      → ((s : S) → Paced k (rest s).1)
      → Paced k (retry_onto ops r rest o s).1
  unfolding retry_onto
  retry_onto-Paced r rest k none s h = tt
  retry_onto-Paced r rest k (some o) s h = elim (Bool-cases (serves o.id (ops.routing_of s))) [
    | inl e ↦ rw e tt
    | inr e ↦ rw e (after_switch-Paced ops o.id rest k (switch_to_order ops r o.id s) h)
  ]

  retry_turn-Paced :
      (worker : Text) (r : Round W C S) (rest : S → Turn RetryEnding S) (k : ℕ) (s : S)
      → ((s : S) → Paced k (rest s).1)
      → Paced k (retry_turn ops worker r rest s).1
  unfolding retry_turn
  retry_turn-Paced worker r rest k s h = elim (Bool-cases r.alive) [
    | inl e ↦ rw e (retry_onto-Paced r rest k _ s h)
    | inr e ↦ rw e tt
  ]

  retry-Paced :
      (worker : Text) (k : ℕ) (rounds : List (Round W C S)) (backoff : ℕ) (s : S)
      → At k backoff
      → Paced k (retry ops worker rounds backoff s).1
  unfolding retry
  retry-Paced worker k [] backoff s h = tt
  retry-Paced worker k (r ∷ rounds) backoff s h = (
    h.0,
    h.1,
    h.2,
    retry_turn-Paced worker r _ (suc k) (r.between s) (λ s'.
        retry-Paced worker (suc k) rounds (next_backoff backoff) s' (next_backoff-At k backoff h)),
  )
