-- ===== src/Sv2/Channels.antt =====
-- src/proto/sv2/relay.rs, `impl Inner`, `attach_member` and `detach_member`.
use blitzpool_rental_proxy.Prelude.{
  Text, ℕ, ◌+◌, ◌%◌, ◌^◌, Bool, true, false, not, ◌&&◌, ◌||◌, Option, none, some, List, [], ◌∷◌,
  ◌++◌, map, if◌then◌else◌, nat_beq, nat_eq,
}
use blitzpool_rental_proxy.Prelude.Strings.{codes, split_once}
use blitzpool_rental_proxy.Prelude.Dict.{Dict, lookup, insert, remove}
use blitzpool_rental_proxy.Orders.Store.{select, find}
use blitzpool_rental_proxy.Sv2.{
  OpenSpec, is_extended, Channel, Inner, Request, open_channel, close_channel,
}

-- u32 counters of a release build
abbrev pub next_u32 : ℕ → ℕ
next_u32 n = (n + 1) % 2 ^ 32

-- src/proto/relay.rs, `upstream_worker`: the account, the miner's own worker name, and the tag.
suffix_of : Option (Text × Text) → Text
suffix_of none = []
suffix_of (some (account, suffix)) = suffix

tagged : Text → Text → Text
tagged account [] = account ++ codes ".bp-proxy"
tagged account (c ∷ suffix) = account ++ codes "." ++ (c ∷ suffix) ++ codes "-bp-proxy"

unfoldable pub upstream_worker : Text → Text → Text
unfolding suffix_of tagged split_once
upstream_worker account label = tagged account (suffix_of (split_once b'.' label))

unfoldable pub contains : ℕ → List ℕ → Bool
contains a [] = false
contains a (b ∷ rest) = nat_beq a b || contains a rest

abbrev pub same_pair : ℕ × ℕ → ℕ × ℕ → Bool
same_pair p q = nat_beq p.0 q.0 && nat_beq p.1 q.1

unfoldable pub contains_pair : ℕ × ℕ → List (ℕ × ℕ) → Bool
contains_pair p [] = false
contains_pair p (q ∷ rest) = same_pair p q || contains_pair p rest

unfoldable pub remove_all : List ℕ → Dict ℕ ℕ → Dict ℕ ℕ
remove_all [] m = m
remove_all (k ∷ ks) m = remove_all ks (remove k m)

abbrev pub is_empty_list : List ℕ → Bool
is_empty_list [] = true
is_empty_list (a ∷ rest) = false

module _ {W : Type 0} where
  unfoldable pub up_for_down : ℕ → Inner W → Option ℕ
  unfolding find
  up_for_down down_cid i = elim (find (λ c. nat_beq c.down_channel_id down_cid) i.channels) [
    | none ↦ none
    | some c ↦ some c.up_channel_id
  ]

  unfoldable pub register_channel : ℕ → ℕ → OpenSpec W → W → ℕ → ℕ → ℕ → Inner W → Inner W
  register_channel down_cid up_cid spec difficulty owner up_group_id down_group_id i = record i {
    up_to_down = insert up_cid down_cid i.up_to_down;
    channels =
        i.channels
        ++ record {
          down_channel_id = down_cid;
          up_channel_id = up_cid;
          spec = spec;
          difficulty = difficulty;
          owner = owner;
          up_group_id = up_group_id;
          down_group_id = down_group_id;
        }
          ∷ [];
  }

  -- The channels of the upstream group, Extended ones only.
  abbrev pub in_group : ℕ → Channel W → Bool
  in_group up_cid c = nat_beq c.up_group_id up_cid && is_extended c.spec

  -- The loop over them: a pair that is there already is not added.
  unfoldable pub add_recipients : ℕ → List (Channel W) → List (ℕ × ℕ) → List (ℕ × ℕ)
  unfolding contains_pair
  add_recipients up_cid [] out = out
  add_recipients up_cid (c ∷ channels) out = add_recipients up_cid channels (
      if in_group up_cid c && not (contains_pair (c.down_group_id, c.owner) out)
      then out ++ (c.down_group_id, c.owner) ∷ []
      else out)

  unfoldable pub group_recipients : ℕ → Inner W → List (ℕ × ℕ)
  unfolding add_recipients
  group_recipients up_cid i = if nat_beq up_cid 0 then [] else add_recipients up_cid i.channels []

  unfoldable pub add_member : Inner W → ℕ × Inner W
  add_member i = (
    i.next_member_id,
    record i { members = i.next_member_id ∷ i.members; next_member_id = next_u32 i.next_member_id },
  )

  -- The member that owns the channel behind `up_cid`, if it is attached.
  unfoldable pub member_sink_for_up : ℕ → Inner W → Option ℕ
  unfolding find contains
  member_sink_for_up up_cid i = elim (find (λ c. nat_beq c.up_channel_id up_cid) i.channels) [
    | none ↦ none
    | some c ↦ if contains c.owner i.members then some c.owner else none
  ]

  map_known : ℕ → Inner W → Option ℕ → ℕ × Inner W
  map_known up_group_id i (some down) = (down, i)
  map_known up_group_id i none = (
    i.next_down_cid,
    record i {
      next_down_cid = next_u32 i.next_down_cid;
      group_down = insert up_group_id i.next_down_cid i.group_down;
    },
  )

  unfoldable pub map_group : ℕ → Bool → Inner W → ℕ × Inner W
  unfolding map_known
  map_group up_group_id extended i =
      if not extended || nat_beq up_group_id 0
      then (up_group_id, i)
      else map_known up_group_id i (lookup up_group_id i.group_down)

  -- `sendable` says whether the open request fits a frame; the member stays attached if not.
  unfoldable pub attach_member : Bool → OpenSpec W → Inner W → Option ℕ × List (Request W) × Inner W
  unfolding add_member upstream_worker
  attach_member sendable spec i =
      if i.translating
      then (none, [], i)
      else let (member, i') = add_member i in
        let up_req = i.next_up_req in
        let i'' = record i' { next_up_req = next_u32 up_req } in
        if sendable
        then (
          some member,
          open_channel spec (upstream_worker i.target.user i.label) up_req ∷ [],
          record i'' { pending = insert up_req (member, spec) i''.pending },
        )
        else (some member, [], i'')

  unfoldable pub owned_by : ℕ → List (Channel W) → List ℕ
  unfolding select
  owned_by member channels =
      map (λ (c : Channel W). c.up_channel_id) (select (λ c. nat_beq c.owner member) channels)

  -- True in the result says that the last member left.
  unfoldable pub detach_member : ℕ → Inner W → Bool × List (Request W) × Inner W
  unfolding select owned_by remove_all
  detach_member member i =
      let members = select (λ m. not (nat_beq m member)) i.members in
      let up_cids = owned_by member i.channels in
      (
        is_empty_list members,
        if i.translating then [] else map close_channel up_cids,
        record i {
          members = members;
          up_to_down = remove_all up_cids i.up_to_down;
          channels = select (λ c. not (nat_beq c.owner member)) i.channels;
          pending = select (λ (e : ℕ × (ℕ × OpenSpec W)). not (nat_beq e.1.0 member)) i.pending;
        },
      )
