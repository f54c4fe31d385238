-- ===== src/Sv2/Groups.antt =====
-- src/proto/sv2/relay.rs, `group_recipients`: who a group message is for.
use blitzpool_rental_proxy.Prelude.{
  ◌≡◌, refl, ap₂, ◌⊎◌, inl, inr, ◌↔◌, ◌≢◌, ℕ, true, false, ◌&&◌, ◌||◌, not, List, [], ◌∷◌, ◌++◌,
  nat_beq, nat_beq_iff, arith, Bool-cases,
}
use blitzpool_rental_proxy.Sv2.{Channel, Inner}
use blitzpool_rental_proxy.Sv2.Channels.{
  same_pair, contains_pair, in_group, add_recipients, group_recipients,
}

-- The pairs, all different.
abbrev pub DistinctPairs : List (ℕ × ℕ) → Type 0
DistinctPairs [] = Unit {0}
DistinctPairs (p ∷ ps) = (contains_pair p ps ≡ false) × DistinctPairs ps

contains_pair-append :
    (p : ℕ × ℕ) (ps : List (ℕ × ℕ)) (q : ℕ × ℕ)
    → contains_pair p (ps ++ q ∷ []) ≡ (contains_pair p ps || same_pair p q)
unfolding contains_pair
contains_pair-append p [] q = ground arith
contains_pair-append p (r ∷ ps) q = ground (arith, contains_pair-append p ps q)

DistinctPairs-append :
    (ps : List (ℕ × ℕ)) (q : ℕ × ℕ)
    → contains_pair q ps ≡ false
    → DistinctPairs ps
    → DistinctPairs (ps ++ q ∷ [])
unfolding contains_pair
DistinctPairs-append [] q h d = (refl, tt)
DistinctPairs-append (p ∷ ps) q h d = (
  ground (arith, contains_pair-append p ps q, d.0),
  DistinctPairs-append ps q (ground (arith, h)) d.1,
)

contains_pair-same :
    (p q : ℕ × ℕ) (out : List (ℕ × ℕ))
    → p.0 ≡ q.0
    → p.1 ≡ q.1
    → contains_pair p out ≡ contains_pair q out
unfolding contains_pair
contains_pair-same p q out e e' = ap₂ (λ a b. contains_pair (a, b) out) e e'

module _ {W : Type 0} where
  -- A channel of the group `g` whose group is `p.0` for the miner `p.1` that owns it.
  abbrev pub Serves : ℕ → ℕ × ℕ → List (Channel W) → Type 0
  Serves g p [] = ⊥
  Serves g p (c ∷ cs) =
      ((in_group g c ≡ true) × (c.down_group_id ≡ p.0) × (c.owner ≡ p.1)) ⊎ Serves g p cs

  add_recipients_iff :
      (g : ℕ) (p : ℕ × ℕ) (cs : List (Channel W)) (out : List (ℕ × ℕ))
      → (contains_pair p (add_recipients g cs out) ≡ true)
        ↔ (Serves g p cs ⊎ (contains_pair p out ≡ true))
  unfolding add_recipients
  add_recipients_iff g p [] out = ground arith
  add_recipients_iff g p (c ∷ cs) out =
      elim (Bool-cases (in_group g c && not (contains_pair (c.down_group_id, c.owner) out))) [
        | inl e ↦
            rw e (added e (add_recipients_iff g p cs (out ++ (c.down_group_id, c.owner) ∷ [])))
        | inr e ↦ rw e (kept e (add_recipients_iff g p cs out))
      ]
    where
      added :
          (in_group g c && not (contains_pair (c.down_group_id, c.owner) out)) ≡ true
          → (contains_pair p (add_recipients g cs (out ++ (c.down_group_id, c.owner) ∷ [])) ≡ true)
            ↔ (Serves g p cs ⊎ (contains_pair p (out ++ (c.down_group_id, c.owner) ∷ []) ≡ true))
          → (contains_pair p (add_recipients g cs (out ++ (c.down_group_id, c.owner) ∷ [])) ≡ true)
            ↔ (Serves g p (c ∷ cs) ⊎ (contains_pair p out ≡ true))
      added e ih = (
        λ h. ground (arith, ih.0 h, contains_pair-append p out (c.down_group_id, c.owner), e),
        λ h. ground (arith, ih.1, contains_pair-append p out (c.down_group_id, c.owner), e, h),
      )

      kept :
          (in_group g c && not (contains_pair (c.down_group_id, c.owner) out)) ≡ false
          → (contains_pair p (add_recipients g cs out) ≡ true)
            ↔ (Serves g p cs ⊎ (contains_pair p out ≡ true))
          → (contains_pair p (add_recipients g cs out) ≡ true)
            ↔ (Serves g p (c ∷ cs) ⊎ (contains_pair p out ≡ true))
      kept e ih = (
        λ h. ground (arith, ih.0 h),
        λ h. ground (arith, ih.1, contains_pair-same (c.down_group_id, c.owner) p out, e, h),
      )

  add_recipients-DistinctPairs :
      (g : ℕ) (cs : List (Channel W)) (out : List (ℕ × ℕ))
      → DistinctPairs out
      → DistinctPairs (add_recipients g cs out)
  unfolding add_recipients
  add_recipients-DistinctPairs g [] out d = d
  add_recipients-DistinctPairs g (c ∷ cs) out d =
      elim (Bool-cases (in_group g c && not (contains_pair (c.down_group_id, c.owner) out))) [
        | inl e ↦ rw e (
            add_recipients-DistinctPairs g cs (out ++ (c.down_group_id, c.owner) ∷ [])
              (DistinctPairs-append out (c.down_group_id, c.owner) (ground (arith, e)) d))
        | inr e ↦ rw e (add_recipients-DistinctPairs g cs out d)
      ]

  -- A group message of the upstream group `up_cid` is written for the downstream group `p.0` to the
  -- member `p.1` exactly if `up_cid` is not 0 and some Extended channel of that group has this
  -- downstream group and this owner; and no pair is written to twice.
  pub group_recipients_lem :
      (up_cid : ℕ) (i : Inner W)
      → ((p : ℕ × ℕ)
          → (contains_pair p (group_recipients up_cid i) ≡ true)
            ↔ ((up_cid ≢ 0) × Serves up_cid p i.channels))
        × DistinctPairs (group_recipients up_cid i)
  unfolding group_recipients contains_pair
  group_recipients_lem up_cid i = elim (Bool-cases (nat_beq up_cid 0)) [
    | inl e ↦ rw e (λ p. (λ h. cc (h), λ h. absurd (h.0 ((nat_beq_iff up_cid 0).0 e))), tt)
    | inr e ↦ rw e (
      λ p. (
        λ h. (ground (arith, e), ground (arith, (add_recipients_iff up_cid p i.channels []).0 h)),
        λ h. (add_recipients_iff up_cid p i.channels []).1 (inl h.1),
      ),
      add_recipients-DistinctPairs up_cid i.channels [] tt,
    )
  ]
