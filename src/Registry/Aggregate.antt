-- ===== src/Registry/Aggregate.antt =====
-- src/registry.rs, `aggregate`: the status of a rig from those of its sessions.
use blitzpool_rental_proxy.Prelude.{◌≡◌, refl, ◌⊎◌, List, [], ◌∷◌, arith}
use blitzpool_rental_proxy.Prelude.Float.{Float}
use blitzpool_rental_proxy.Control.{SessionStatus, idle_name, rented_name}
use blitzpool_rental_proxy.Registry.{lead_of, aggregate}

module _ {W : Type 0} ⦃f : Float W⦄ where
  abbrev pub AnyRented : List (SessionStatus W) → Type 0
  AnyRented [] = ⊥
  AnyRented (p ∷ rest) = (p.routing ≡ rented_name) ⊎ AnyRented rest

  abbrev pub AllIdle : List (SessionStatus W) → Type 0
  AllIdle [] = Unit
  AllIdle (p ∷ rest) = (p.routing ≡ idle_name) × AllIdle rest

  lead_of-rented :
      (first : SessionStatus W) (parts : List (SessionStatus W))
      → AnyRented parts
      → (lead_of first parts).routing ≡ rented_name
  unfolding lead_of
  lead_of-rented first [] h = absurd h
  lead_of-rented first (p ∷ rest) h = ground (arith, lead_of-rented first rest)

  lead_of-idle :
      (first : SessionStatus W) (parts : List (SessionStatus W))
      → AllIdle parts
      → lead_of first parts ≡ first
  unfolding lead_of
  lead_of-idle first [] h = refl
  lead_of-idle first (p ∷ rest) h = ground (arith, lead_of-idle first rest)

  -- A rig reads as rented when any of its sessions is, whatever their order.
  aggregate-rented :
      (first : SessionStatus W) (rest : List (SessionStatus W))
      → AnyRented (first ∷ rest)
      → (aggregate first rest).routing ≡ rented_name
  unfolding aggregate
  aggregate-rented first rest h = lead_of-rented first (first ∷ rest) h

  -- A rig with no rented session reads like its first one.
  pub aggregate-idle :
      (first : SessionStatus W) (rest : List (SessionStatus W))
      → AllIdle (first ∷ rest)
      → ((aggregate first rest).routing ≡ first.routing)
        × ((aggregate first rest).order_id ≡ first.order_id)
        × ((aggregate first rest).upstream_url ≡ first.upstream_url)
  unfolding aggregate
  aggregate-idle first rest h = rw (lead_of-idle first (first ∷ rest) h) (refl, refl, refl)
