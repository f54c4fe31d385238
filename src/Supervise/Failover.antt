-- ===== src/Supervise/Failover.antt =====
-- src/proto/relay.rs and src/proto/sv2/relay.rs, `switch_to_order`: the two targets of an order.
use blitzpool_rental_proxy.Prelude.{
  ◌≡◌, refl, sym, ◌∙◌, ap, Text, Bool, true, false, Option, none, some, ◌⊎◌, inl, inr, ◌↔◌,
}
use blitzpool_rental_proxy.Session.{UpstreamTarget, rented}
use blitzpool_rental_proxy.Orders.{Order}
use blitzpool_rental_proxy.Orders.Store.{get}
use blitzpool_rental_proxy.Supervise.{
  Switchable, Lawful, Round, switch_to, or_fallback, onto_order, switch_to_order,
}

module _ {C S : Type 0} (ops : Switchable C S) (laws : Lawful ops) where
  -- A switch onto an order: with success it serves the order; without, it serves what it did, under
  -- the generation that it had.
  abbrev pub Switched : Text → S → Bool × S → Type 0
  Switched id s (true, s') = ops.routing_of s' ≡ rented id
  Switched id s (false, s') =
      (ops.routing_of s' ≡ ops.routing_of s) × (ops.generation_of s' ≡ ops.generation_of s)

  of_swap :
      (id : Text) (target : UpstreamTarget) (c : C) (s : S) (result : Bool × S)
      → switch_to ops id target c s ≡ result
      → Switched id s result
  of_swap id target c s (true, s') e =
      ap (λ x. ops.routing_of x.1) (sym e) ∙ laws.swap_ok target (rented id) c s (ap (λ x. x.0) e)
  of_swap id target c s (false, s') e =
      let (routing, generation) = laws.swap_failed target (rented id) c s (ap (λ x. x.0) e) in
      (
        ap (λ x. ops.routing_of x.1) (sym e) ∙ routing,
        ap (λ x. ops.generation_of x.1) (sym e) ∙ generation,
      )

  Switched-from :
      (id : Text) (s t : S) (result : Bool × S)
      → Switched id s (false, t)
      → Switched id t result
      → Switched id s result
  Switched-from id s t (true, s') h k = k
  Switched-from id s t (false, s') h k = (k.0 ∙ h.0, k.1 ∙ h.1)

  or_fallback-Switched :
      (id : Text) (fallback : Option UpstreamTarget) (c : C) (s : S) (result : Bool × S)
      → Switched id s result
      → Switched id s (or_fallback ops id fallback c result)
  unfolding or_fallback
  or_fallback-Switched id fallback c s (true, t) h = h
  or_fallback-Switched id none c s (false, t) h = h
  or_fallback-Switched id (some target) c s (false, t) h =
      Switched-from id s t (switch_to ops id target c t) h (of_swap id target c t _ refl)

module _ {W C S : Type 0} (ops : Switchable C S) (laws : Lawful ops) where
  onto_order-Switched :
      (id : Text) (o : Option (Order W)) (c d : C) (s : S)
      → Switched ops laws id s (onto_order ops id o c d s)
  unfolding onto_order
  onto_order-Switched id none c d s = (refl, refl)
  onto_order-Switched id (some o) c d s =
      or_fallback-Switched ops laws id o.fallback d s (switch_to ops id o.target c s)
        (of_swap ops laws id o.target c s _ refl)

  pub switch_to_order-Switched :
      (r : Round W C S) (id : Text) (s : S) → Switched ops laws id s (switch_to_order ops r id s)
  unfolding switch_to_order
  switch_to_order-Switched r id s = onto_order-Switched id (get r.up id r.store) r.first r.second s

some_injective : {t u : UpstreamTarget} → some t ≡ some u → t ≡ u
some_injective e = cc

module _ {C S : Type 0} (ops : Switchable C S) where
  or_fallback-first :
      (id : Text) (fallback : Option UpstreamTarget) (c : C) (result : Bool × S)
      → result.0 ≡ true
      → (or_fallback ops id fallback c result).0 ≡ true
  unfolding or_fallback
  or_fallback-first id fallback c (true, s) h = refl
  or_fallback-first id fallback c (false, s) h = cc

module _ {W C S : Type 0} (ops : Switchable C S) where
  fails_iff :
      (r : Round W C S) (id : Text) (fallback : Option UpstreamTarget) (result : Bool × S)
      → (result.0 ≡ false)
          × ((fallback ≡ none)
              ⊎ ((target : UpstreamTarget) × (fallback ≡ some target)
                  × ((switch_to ops id target r.second result.1).0 ≡ false)))
        ↔ ((or_fallback ops id fallback r.second result).0 ≡ false)
  unfolding or_fallback
  fails_iff r id fallback (true, s) = (λ h. h.0, λ h. cc)
  fails_iff r id none (false, s) = (λ h. refl, λ h. (refl, inl refl))
  fails_iff r id (some target) (false, s) = (
    λ h. elim h.1 [
      | inl e ↦ cc
      | inr k ↦ ap (λ x. (switch_to ops id x r.second s).0) (some_injective k.1) ∙ k.2
    ],
    λ h. (refl, inr (target, refl, h)),
  )

  -- A switch onto an order that the store has fails only if the order's target cannot be reached and
  -- then, on the session that this leaves, its fallback cannot either or there is none.
  pub switch_to_order_fails_iff :
      (r : Round W C S) (id : Text) (o : Order W) (s : S)
      → get r.up id r.store ≡ some o
      → ((switch_to ops id o.target r.first s).0 ≡ false)
          × ((o.fallback ≡ none)
              ⊎ ((target : UpstreamTarget) × (o.fallback ≡ some target)
                  × ((switch_to ops id target r.second (switch_to ops id o.target r.first s).1).0
                      ≡ false)))
        ↔ ((switch_to_order ops r id s).0 ≡ false)
  unfolding switch_to_order onto_order
  switch_to_order_fails_iff r id o s found =
      rw found (fails_iff r id o.fallback (switch_to ops id o.target r.first s))

  -- With the order in the store and its target in reach the switch succeeds.
  pub switch_to_order-first :
      (r : Round W C S) (id : Text) (o : Order W) (s : S)
      → get r.up id r.store ≡ some o
      → (switch_to ops id o.target r.first s).0 ≡ true
      → (switch_to_order ops r id s).0 ≡ true
  unfolding switch_to_order onto_order
  switch_to_order-first r id o s found h =
      rw found
        (or_fallback-first ops id o.fallback r.second (switch_to ops id o.target r.first s) h)
