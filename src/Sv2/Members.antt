-- ===== src/Sv2/Members.antt =====
-- src/proto/sv2/relay.rs, `detach_member`: what a member leaves behind.
use blitzpool_rental_proxy.Prelude.{
  ◌≡◌, ◌≢◌, ap, sym, ◌∙◌, nat_beq_iff, ◌&&◌, refl, ◌⊎◌, inl, inr, ◌↔◌, ℕ, true, false, not, none,
  List, [], ◌∷◌, if◌then◌else◌, nat_beq, nat_eq, arith, Bool-cases,
}
use blitzpool_rental_proxy.Prelude.Dict.{Dict, lookup, remove, lookup-remove}
use blitzpool_rental_proxy.Orders.Store.{select}
use blitzpool_rental_proxy.Sv2.{OpenSpec, Channel, Inner}
use blitzpool_rental_proxy.Sv2.Channels.{
  contains, remove_all, owned_by, detach_member, is_empty_list,
}

module _ {A : Type 0} where
  abbrev pub InList : A → List A → Type 0
  InList x [] = ⊥
  InList x (a ∷ xs) = (x ≡ a) ⊎ InList x xs

  -- The entries that are left are those of the other owners, as they were.
  select-InList :
      (owner : A → ℕ) (gone : ℕ) (x : A) (xs : List A)
      → InList x (select (λ a. not (nat_beq (owner a) gone)) xs) ↔ ((owner x ≢ gone) × InList x xs)
  unfolding select
  select-InList owner gone x [] = (λ h. absurd h, λ h. absurd h.1)
  select-InList owner gone x (a ∷ xs) =
      let rest = select-InList owner gone x xs in
      elim (Bool-cases (nat_beq (owner a) gone)) [
        | inl e ↦
            rw e (λ h. ((rest.0 h).0, inr ((rest.0 h).1)), λ h. rest.1 (h.0, behind e h.0 h.1))
        | inr e ↦ rw e (
          λ h. elim h [
            | inl same ↦ (λ k. ground (arith, e, sym (ap owner same) ∙ k), inl same)
            | inr g ↦ ((rest.0 g).0, inr ((rest.0 g).1))
          ],
          λ h. elim h.1 [ inl same ↦ inl same | inr g ↦ inr (rest.1 (h.0, g)) ],
        )
      ]
    where
      behind : nat_beq (owner a) gone ≡ true → owner x ≢ gone → (x ≡ a) ⊎ InList x xs → InList x xs
      behind e n (inl same) = absurd (n (ap owner same ∙ (nat_beq_iff (owner a) gone).0 e))
      behind e n (inr h) = h

contains-select :
    (m gone : ℕ) (ms : List ℕ)
    → contains m (select (λ x. not (nat_beq x gone)) ms) ≡ (not (nat_beq m gone) && contains m ms)
unfolding select contains
contains-select m gone [] = ground arith
contains-select m gone (x ∷ ms) = ground (arith, contains-select m gone ms)

lookup-remove_all :
    (ks : List ℕ) (k : ℕ) (m : Dict ℕ ℕ)
    → lookup k (remove_all ks m) ≡ (if contains k ks then none else lookup k m)
unfolding remove_all contains
lookup-remove_all [] k m = refl
lookup-remove_all (j ∷ ks) k m =
    ground (arith, lookup-remove_all ks k (remove j m), lookup-remove j k m)

is_empty_list-contains :
    (ms : List ℕ) → (is_empty_list ms ≡ true) ↔ ((m : ℕ) → contains m ms ≡ false)
unfolding contains
is_empty_list-contains [] = (λ h m. refl, λ h. refl)
is_empty_list-contains (x ∷ ms) = (λ h. cc, λ h. ground (arith, h x))

module _ {W : Type 0} where
  -- After a member left: it is attached no more and every other member is as before; the channels are
  -- exactly those that were there with another owner, unchanged, and so are the open requests; an
  -- upstream channel id is known, for the same channel, exactly if it was and was not one of the leaving
  -- member's; and the answer says whether no member is left.
  pub detach_member_lem :
      (member : ℕ) (i : Inner W)
      → ((m : ℕ)
          → contains m (detach_member member i).2.members
            ≡ (not (nat_beq m member) && contains m i.members))
        × ((c : Channel W)
            → InList c (detach_member member i).2.channels
              ↔ ((c.owner ≢ member) × InList c i.channels))
        × ((e : ℕ × (ℕ × OpenSpec W))
            → InList e (detach_member member i).2.pending ↔ ((e.1.0 ≢ member) × InList e i.pending))
        × ((up : ℕ)
            → lookup up (detach_member member i).2.up_to_down
              ≡ (if contains up (owned_by member i.channels) then none else lookup up i.up_to_down))
        × (((detach_member member i).0 ≡ true)
            ↔ ((m : ℕ) → contains m (detach_member member i).2.members ≡ false))
  unfolding detach_member
  detach_member_lem member i = (
    λ m. contains-select m member i.members,
    λ c. select-InList (λ (c : Channel W). c.owner) member c i.channels,
    λ e. select-InList (λ (e : ℕ × (ℕ × OpenSpec W)). e.1.0) member e i.pending,
    λ up. lookup-remove_all (owned_by member i.channels) up i.up_to_down,
    is_empty_list-contains (select (λ m. not (nat_beq m member)) i.members),
  )
