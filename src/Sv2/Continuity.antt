-- ===== src/Sv2/Continuity.antt =====
-- src/proto/sv2/relay.rs, `swap_upstream`: what the miners keep over a switch, and what the old
-- upstream can still do.
use blitzpool_rental_proxy.Prelude.{
  ◌≡◌, refl, ◌∙◌, ap, sym, ℕ, ◌+◌, ◌%◌, ◌^◌, ◌≤◌, ◌<◌, false, Option, none, some, List, [], ◌∷◌,
  ◌++◌, map, arith,
}
use blitzpool_rental_proxy.Prelude.Float.{Float}
use blitzpool_rental_proxy.Session.{UpstreamTarget, Routing}
use blitzpool_rental_proxy.Sv2.{OpenSpec, ChannelInfo, Channel, Inner, Frame}
use blitzpool_rental_proxy.Sv2.Frames.{Sent, Codec, on_upstream_frame}
use blitzpool_rental_proxy.Sv2.Switch.{
  Reopened, reopen, reopen_one, nothing_reopened, finish, swap_upstream,
}
use blitzpool_rental_proxy.Sv2.Stale.{on_upstream_frame-stale}

append_assoc : {A : Type 0} (xs ys zs : List A) → (xs ++ ys) ++ zs ≡ xs ++ (ys ++ zs)
append_assoc [] ys zs = refl
append_assoc (x ∷ xs) ys zs = rw (append_assoc xs ys zs)

append-nil : {A : Type 0} (xs : List A) → xs ++ [] ≡ xs
append-nil [] = refl
append-nil (x ∷ xs) = rw (append-nil xs)

some-fields :
    {W : Type 0} {r r' : Reopened W} → ◌≡◌ {A = Option (Reopened W)} (some r) (some r') → r ≡ r'
some-fields e = cc

module _ {W : Type 0} where
  -- What a miner knows of its channel, and what the proxy knows of the miner's.
  abbrev pub identity : Channel W → ℕ × (ℕ × (OpenSpec W × ℕ))
  identity c = (c.down_channel_id, (c.owner, (c.spec, c.down_group_id)))

  abbrev pub Kept : List (Channel W) → List (Channel W) → Type 0
  Kept cs ds = map identity cs ≡ map identity ds

  map-append :
      (xs ys : List (Channel W)) → map identity (xs ++ ys) ≡ map identity xs ++ map identity ys
  map-append [] ys = refl
  map-append (x ∷ xs) ys = rw (map-append xs ys)

module _ {W : Type 0} (c : Codec W) where
  reopen-Kept :
      (channels : List (Channel W)) (opens : List (Option ChannelInfo)) (r r' : Reopened W)
      → reopen c channels opens r ≡ some r'
      → map identity r'.new_channels ≡ map identity r.new_channels ++ map identity channels
  unfolding reopen reopen_one
  reopen-Kept [] opens r r' h =
      ap (λ x. map identity x.new_channels) (sym (some-fields h))
      ∙ sym (append-nil (map identity r.new_channels))
  reopen-Kept (ch ∷ channels) [] r r' h = cc
  reopen-Kept (ch ∷ channels) (none ∷ opens) r r' h = cc
  reopen-Kept (ch ∷ channels) (some info ∷ opens) r r' h =
      reopen-Kept channels opens (reopen_one c ch info r) r' h
      ∙ ap (λ x. x ++ map identity channels) (map-append r.new_channels _)
      ∙ append_assoc (map identity r.new_channels) _ _

  -- A switch that succeeds keeps every channel with the id, the owner, the request and the group that
  -- its miner knows, in order; it routes as asked to the target asked, under the next generation, with
  -- no open request left, and the rig may share its upstream again. The members stay.
  pub swap_upstream-Kept :
      (target : UpstreamTarget) (routing : Routing) (opens : List (Option ChannelInfo))
      (i : Inner W) (sent : List (Sent W))
      → (swap_upstream c target routing opens i).0 ≡ some sent
      → Kept (swap_upstream c target routing opens i).1.channels i.channels
        × ((swap_upstream c target routing opens i).1.generation
            ≡ (i.generation_counter + 1) % 2 ^ 64)
        × ((swap_upstream c target routing opens i).1.target ≡ target)
        × ((swap_upstream c target routing opens i).1.routing ≡ routing)
        × ((swap_upstream c target routing opens i).1.pending ≡ [])
        × ((swap_upstream c target routing opens i).1.translating ≡ false)
        × ((swap_upstream c target routing opens i).1.members ≡ i.members)
  unfolding swap_upstream finish
  swap_upstream-Kept target routing opens i sent h =
      of_result (reopen c i.channels opens (nothing_reopened c)) refl h
    where
      next : Inner W
      next = record i { generation_counter = (i.generation_counter + 1) % 2 ^ 64 }

      of_result :
          (r : Option (Reopened W))
          → reopen c i.channels opens (nothing_reopened c) ≡ r
          → (finish c target routing next r).0 ≡ some sent
          → Kept (finish c target routing next r).1.channels i.channels
            × ((finish c target routing next r).1.generation ≡ (i.generation_counter + 1) % 2 ^ 64)
            × ((finish c target routing next r).1.target ≡ target)
            × ((finish c target routing next r).1.routing ≡ routing)
            × ((finish c target routing next r).1.pending ≡ [])
            × ((finish c target routing next r).1.translating ≡ false)
            × ((finish c target routing next r).1.members ≡ i.members)
      of_result none e k = cc
      of_result (some r) e k = (
        reopen-Kept i.channels opens (nothing_reopened c) r e,
        refl,
        refl,
        refl,
        refl,
        refl,
        refl,
      )

  -- A switch that fails leaves all but the counter of generations as it was.
  pub swap_upstream-failed :
      (target : UpstreamTarget) (routing : Routing) (opens : List (Option ChannelInfo))
      (i : Inner W)
      → (swap_upstream c target routing opens i).0 ≡ none
      → (swap_upstream c target routing opens i).1
        ≡ record i { generation_counter = (i.generation_counter + 1) % 2 ^ 64 }
  unfolding swap_upstream finish
  swap_upstream-failed target routing opens i h =
      of_result (reopen c i.channels opens (nothing_reopened c)) h
    where
      next : Inner W
      next = record i { generation_counter = (i.generation_counter + 1) % 2 ^ 64 }

      of_result :
          (r : Option (Reopened W))
          → (finish c target routing next r).0 ≡ none
          → (finish c target routing next r).1 ≡ next
      of_result none k = refl
      of_result (some r) k = cc

module _ {W : Type 0} ⦃f : Float W⦄ (c : Codec W) where
  -- After a switch that succeeds, with generations counted below 2^64, no frame of the old upstream
  -- sends, credits or changes anything.
  pub swap_upstream-stale :
      (target : UpstreamTarget) (routing : Routing) (opens : List (Option ChannelInfo))
      (i : Inner W) (sent : List (Sent W)) (now : ℕ) (frame : Frame)
      → (swap_upstream c target routing opens i).0 ≡ some sent
      → i.generation ≤ i.generation_counter
      → i.generation_counter + 1 < 2 ^ 64
      → on_upstream_frame c now i.generation frame (swap_upstream c target routing opens i).1
        ≡ ([], none, (swap_upstream c target routing opens i).1)
  swap_upstream-stale target routing opens i sent now frame h old few =
      on_upstream_frame-stale c now i.generation frame (swap_upstream c target routing opens i).1
        (λ e. omega (arith, e, (swap_upstream-Kept c target routing opens i sent h).1))
