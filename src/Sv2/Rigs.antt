-- ===== src/Sv2/Rigs.antt =====
-- src/proto/sv2/relay/registry.rs: the rig that the next miner of a worker joins, and the reaper of
-- a rig that stays empty. A rig's session is known by the number that its `Arc` points to.
use blitzpool_rental_proxy.Prelude.{
  Text, ℕ, ◌≡◌, refl, inl, inr, Bool, true, false, not, ◌||◌, ◌&&◌, Option, none, some,
  if◌then◌else◌, nat_beq, ◌==◌, text_eq, arith, Bool-cases,
}
use blitzpool_rental_proxy.Prelude.Dict.{Dict, lookup, insert, remove, lookup-insert, lookup-remove}
use blitzpool_rental_proxy.Control.{sv2}
use blitzpool_rental_proxy.Registry.{Registry, get_all, without, remove_if}
use blitzpool_rental_proxy.Registry.Grouping.{get_all-remove_if}
use blitzpool_rental_proxy.Sv2.{Inner}
use blitzpool_rental_proxy.Sv2.Channels.{is_empty_list}

abbrev pub points_to : Option ℕ → ℕ → Bool
points_to none rig = false
points_to (some r) rig = nat_beq r rig

-- Is `rig` the one that is registered for the worker?
unfoldable pub is_target : Text → ℕ → Dict Text ℕ → Bool
is_target worker rig rigs = points_to (lookup worker rigs) rig

abbrev pub is_free : Option ℕ → Bool
is_free none = true
is_free (some r) = false

unfoldable pub insert_if_absent : Text → ℕ → Dict Text ℕ → Bool × Dict Text ℕ
insert_if_absent worker rig rigs =
    if is_free (lookup worker rigs) then (true, insert worker rig rigs) else (false, rigs)

unfoldable pub remove_target : Text → ℕ → Dict Text ℕ → Dict Text ℕ
unfolding is_target
remove_target worker rig rigs = if is_target worker rig rigs then remove worker rigs else rigs

-- The reaper of the round `token`, after its wait and behind the gate of the worker. True is for the
-- end of the upstream's tasks.
unfoldable pub reap_idle_rig :
    {W : Type 0} → ℕ → Inner W → Text → ℕ → Dict Text ℕ → Registry → Bool × Dict Text ℕ × Registry
unfolding remove_target
reap_idle_rig rig i worker token rigs registry =
    if not (is_empty_list i.members) || not (nat_beq i.idle_token token)
    then (false, rigs, registry)
    else (true, remove_target worker rig rigs, remove_if worker (sv2 rig) registry)

-- A rig that is registered only if its place is free never takes the place of another, and no other
-- worker's rig changes.
lookup-insert_if_absent :
    (worker other : Text) (rig : ℕ) (rigs : Dict Text ℕ)
    → lookup other (insert_if_absent worker rig rigs).1
      ≡ (if (worker == other) && is_free (lookup worker rigs) then some rig else lookup other rigs)
unfolding insert_if_absent
lookup-insert_if_absent worker other rig rigs = ground (arith, lookup-insert worker other rig rigs)

-- The teardown of a rig takes it out of its worker's place only if it is still the one there, and no
-- other worker's rig changes.
pub lookup-remove_target :
    (worker other : Text) (rig : ℕ) (rigs : Dict Text ℕ)
    → lookup other (remove_target worker rig rigs)
      ≡ (if (worker == other) && is_target worker rig rigs then none else lookup other rigs)
unfolding remove_target
lookup-remove_target worker other rig rigs = ground (arith, lookup-remove worker other rigs)

-- A rig that a member joined again, or that ran empty again in a later round, is not reaped: its tasks
-- go on and both registries stay. Any other rig's tasks end, it leaves its worker's place if it still
-- holds it, and of the live sessions only its own entries go; a fresh rig in its place stays.
pub reap_idle_rig_lem :
    {W : Type 0} (rig token : ℕ) (i : Inner W) (worker other : Text) (rigs : Dict Text ℕ)
    (registry : Registry)
    → let again = not (is_empty_list i.members) || not (nat_beq i.idle_token token) in
      let (reaped, rigs', registry') = reap_idle_rig rig i worker token rigs registry in
      (reaped ≡ not again)
      × (lookup other rigs' ≡ (
          if not again && (worker == other) && is_target worker rig rigs
          then none
          else lookup other rigs))
      × (get_all other registry' ≡ (
          if not again && (worker == other)
          then without (sv2 rig) (get_all worker registry)
          else get_all other registry))
unfolding reap_idle_rig
reap_idle_rig_lem rig token i worker other rigs registry =
    elim (Bool-cases (not (is_empty_list i.members) || not (nat_beq i.idle_token token))) [
      | inl e ↦ rw e (refl, refl, refl)
      | inr e ↦ rw e (
        refl,
        lookup-remove_target worker other rig rigs,
        get_all-remove_if worker other (sv2 rig) registry,
      )
    ]
