-- ===== src/Registry.antt =====
-- src/registry.rs: the live sessions by rig (worker name). A rig is every session under one name.
pub mod Grouping
pub mod Aggregate
use mathlib.Core.List.{foldl, flatten}
use blitzpool_rental_proxy.Prelude.{
  Text, ℕ, ◌+◌, Bool, true, false, not, ◌&&◌, Option, none, some, List, [], ◌∷◌, ◌++◌, map,
  if◌then◌else◌, text_eq,
}
use blitzpool_rental_proxy.Prelude.Dict.{Dict, lookup, insert, remove}
use blitzpool_rental_proxy.Prelude.Float.{Float, nought}
use blitzpool_rental_proxy.Control.{
  AnySession, ptr_eq, SessionStatus, RoutingName, idle_name, rented_name, accept_ratio,
  accept_ratio_low,
}

abbrev pub Registry : Type 0
Registry = Dict Text (List AnySession)

-- unwrap_or_default
abbrev pub or_empty {ℓ} : {A : Type ℓ} → Option (List A) → List A
or_empty none = []
or_empty (some xs) = xs

unfoldable pub get_all : Text → Registry → List AnySession
get_all worker r = or_empty (lookup worker r)

-- `insert` of the source: the session joins its siblings.
unfoldable pub join : Text → AnySession → Registry → Registry
unfolding get_all
join worker session r = insert worker (get_all worker r ++ session ∷ []) r

-- sessions.retain(|s| !s.ptr_eq(session))
unfoldable pub without : AnySession → List AnySession → List AnySession
without session [] = []
without session (s ∷ rest) =
    let kept = without session rest in if ptr_eq s session then kept else s ∷ kept

left_over : Text → List AnySession → Registry → Registry
left_over worker [] r = remove worker r
left_over worker (s ∷ rest) r = insert worker (s ∷ rest) r

unfoldable pub remove_if : Text → AnySession → Registry → Registry
unfolding without left_over
remove_if worker session r = elim (lookup worker r) [
  | none ↦ r
  | some sessions ↦ left_over worker (without session sessions) r
]

module _ {W : Type 0} ⦃f : Float W⦄ where
  abbrev pub is_rented : SessionStatus W → Bool
  is_rented p = elim p.routing [ rented_name ↦ true | idle_name ↦ false ]

  -- parts.iter().position(rented).unwrap_or(0), and the status there
  unfoldable pub lead_of : SessionStatus W → List (SessionStatus W) → SessionStatus W
  lead_of first [] = first
  lead_of first (p ∷ rest) = if is_rented p then p else lead_of first rest

  unfoldable pub sum_f64 : (SessionStatus W → W) → List (SessionStatus W) → W
  sum_f64 g parts = foldl (λ acc p. f.add acc (g p)) nought parts

  unfoldable pub sum_u64 : (SessionStatus W → ℕ) → List (SessionStatus W) → ℕ
  sum_u64 g [] = 0
  sum_u64 g (p ∷ rest) = g p + sum_u64 g rest

  -- The caller never passes an empty list: `first` is `parts[0]`.
  unfoldable pub aggregate : SessionStatus W → List (SessionStatus W) → SessionStatus W
  unfolding lead_of sum_f64 sum_u64
  aggregate first rest =
      let parts = first ∷ rest in
      let lead = lead_of first parts in
      let accepted = sum_u64 (λ p. p.accepted_shares) parts in
      let submitted = sum_u64 (λ p. p.submitted_shares) parts in
      record {
        worker = lead.worker;
        routing = lead.routing;
        order_id = lead.order_id;
        upstream_url = lead.upstream_url;
        hashrate_hs = sum_f64 (λ p. p.hashrate_hs) parts;
        delivered_work = sum_f64 (λ p. p.delivered_work) parts;
        accepted_shares = accepted;
        submitted_shares = submitted;
        accept_ratio_value = accept_ratio accepted submitted;
        accept_ratio_is_low = accept_ratio_low f accepted submitted;
        protocol = lead.protocol;
      }

  aggregate_all : List (SessionStatus W) → Option (SessionStatus W)
  unfolding aggregate
  aggregate_all [] = none
  aggregate_all (p ∷ rest) = some (aggregate p rest)

  -- `status` reads one session; it is the relay's, and an argument here.
  unfoldable pub aggregated_status :
      (AnySession → SessionStatus W) → Text → Registry → Option (SessionStatus W)
  unfolding get_all aggregate_all
  aggregated_status status worker r = aggregate_all (map status (get_all worker r))

  abbrev or_skip : Option (SessionStatus W) → List (SessionStatus W) → List (SessionStatus W)
  or_skip none out = out
  or_skip (some p) out = p ∷ out

  unfoldable pub snapshot : (AnySession → SessionStatus W) → Registry → List (SessionStatus W)
  unfolding aggregate_all
  snapshot status [] = []
  snapshot status ((worker, sessions) ∷ rest) =
      or_skip (aggregate_all (map status sessions)) (snapshot status rest)
