-- ===== src/Sv2/Forwarding.antt =====
-- src/proto/sv2/relay.rs, `forward` and the readers around it: which member a frame reaches.
use blitzpool_rental_proxy.Prelude.{
  ◌≡◌, subst, refl, ◌⊎◌, inl, inr, ℕ, true, Option, none, some, List, [], ◌∷◌, if◌then◌else◌,
  nat_beq, nat_eq, arith, Bool-cases,
}
use blitzpool_rental_proxy.Prelude.Dict.{lookup}
use blitzpool_rental_proxy.Orders.Store.{find}
use blitzpool_rental_proxy.Sv2.{Channel, Inner, Frame}
use blitzpool_rental_proxy.Sv2.Channels.{
  contains, contains_pair, group_recipients, member_sink_for_up,
}
use blitzpool_rental_proxy.Sv2.Groups.{Serves, group_recipients_lem}
use blitzpool_rental_proxy.Sv2.Frames.{
  Sent, readdressed, send_group, to_owner, per_channel, forward,
}

module _ {W : Type 0} where
  -- The channel behind an upstream channel id, with its owner.
  abbrev pub OwnedBy : ℕ → ℕ → List (Channel W) → Type 0
  OwnedBy up_cid m [] = ⊥
  OwnedBy up_cid m (c ∷ cs) = ((c.up_channel_id ≡ up_cid) × (c.owner ≡ m)) ⊎ OwnedBy up_cid m cs

  -- A write that the frame may cause: to an attached member, for a group that one of its channels is
  -- in, or for the downstream id of the channel it owns.
  abbrev pub Rightful : ℕ → Frame → Inner W → Sent W → Type 0
  Rightful up_cid frame i (m, message) =
      (contains m i.members ≡ true)
      × (((g : ℕ) × Serves up_cid (g, m) i.channels × (message ≡ readdressed g frame))
          ⊎ ((d : ℕ) × (lookup up_cid i.up_to_down ≡ some d)
              × OwnedBy up_cid m i.channels
              × (message ≡ readdressed d frame)))

  abbrev pub All : (Sent W → Type 0) → List (Sent W) → Type 0
  All P [] = Unit {0}
  All P (x ∷ xs) = P x × All P xs

  find-OwnedBy :
      (up_cid : ℕ) (cs : List (Channel W)) (c : Channel W)
      → find (λ c. nat_beq c.up_channel_id up_cid) cs ≡ some c
      → OwnedBy up_cid c.owner cs
  unfolding find
  find-OwnedBy up_cid [] c h = ground arith
  find-OwnedBy up_cid (x ∷ cs) c h = ground (arith, find-OwnedBy up_cid cs c, h)

  member_sink_for_up-OwnedBy :
      (up_cid m : ℕ) (i : Inner W)
      → member_sink_for_up up_cid i ≡ some m
      → (contains m i.members ≡ true) × OwnedBy up_cid m i.channels
  unfolding member_sink_for_up
  member_sink_for_up-OwnedBy up_cid m i h =
      of_found (find (λ c. nat_beq c.up_channel_id up_cid) i.channels) refl h
    where
      of_found :
          (r : Option (Channel W))
          → find (λ c. nat_beq c.up_channel_id up_cid) i.channels ≡ r
          → elim r [
            | none ↦ none
            | some c ↦ if contains c.owner i.members then some c.owner else none
          ]
            ≡ some m
          → (contains m i.members ≡ true) × OwnedBy up_cid m i.channels
      of_found none e k = ground arith
      of_found (some c) e k =
          let (here, same) = attached c k in
          (
            subst (λ n. contains n i.members ≡ true) same here,
            subst (λ n. OwnedBy up_cid n i.channels) same (find-OwnedBy up_cid i.channels c e),
          )
        where
          attached :
              (c : Channel W)
              → (if contains c.owner i.members then some c.owner else none) ≡ some m
              → (contains c.owner i.members ≡ true) × (c.owner ≡ m)
          attached c k = ground (arith, k)

  send_group-All :
      (up_cid : ℕ) (frame : Frame) (i : Inner W) (ps : List (ℕ × ℕ))
      → ((p : ℕ × ℕ) → contains_pair p ps ≡ true → Serves up_cid p i.channels)
      → All (Rightful up_cid frame i) (send_group i.members frame ps)
  unfolding send_group contains_pair
  send_group-All up_cid frame i [] h = tt
  send_group-All up_cid frame i ((g, m) ∷ ps) h = elim (Bool-cases (contains m i.members)) [
    | inl e ↦ rw e (
      (e, inl (g, h (g, m) (ground arith), refl)),
      send_group-All up_cid frame i ps (λ p k. h p (ground (arith, k))),
    )
    | inr e ↦ rw e (send_group-All up_cid frame i ps (λ p k. h p (ground (arith, k))))
  ]

  -- A frame for the upstream channel or group `up_cid` is written only to attached members, each time
  -- with the downstream id of a group that one of the member's own channels of that upstream group
  -- is in, or with the one that the map holds for `up_cid` where the member owns the channel.
  pub forward-Rightful :
      (up_cid : ℕ) (frame : Frame) (i : Inner W)
      → All (Rightful up_cid frame i) (forward up_cid frame i)
  unfolding forward to_owner per_channel
  forward-Rightful up_cid frame i =
      of_group (group_recipients up_cid i) (λ p k. (((group_recipients_lem up_cid i).0 p).0 k).1)
    where
      of_member :
          (r : Option ℕ) (d : ℕ)
          → member_sink_for_up up_cid i ≡ r
          → lookup up_cid i.up_to_down ≡ some d
          → All (Rightful up_cid frame i) (to_owner r d frame)
      of_member none d e k = tt
      of_member (some m) d e k =
          let (here, owns) = member_sink_for_up-OwnedBy up_cid m i e in
          ((here, inr (d, k, owns, refl)), tt)

      of_id :
          (r : Option ℕ)
          → lookup up_cid i.up_to_down ≡ r
          → All (Rightful up_cid frame i) (per_channel up_cid frame i r)
      of_id none e = tt
      of_id (some d) e = of_member (member_sink_for_up up_cid i) d refl e

      of_group :
          (ps : List (ℕ × ℕ))
          → ((p : ℕ × ℕ) → contains_pair p ps ≡ true → Serves up_cid p i.channels)
          → All (Rightful up_cid frame i) (elim ps [
            | [] ↦ per_channel up_cid frame i (lookup up_cid i.up_to_down)
            | r ∷ rest ↦ send_group i.members frame (r ∷ rest)
          ])
      of_group [] k = of_id (lookup up_cid i.up_to_down) refl
      of_group (r ∷ rest) k = send_group-All up_cid frame i (r ∷ rest) k
