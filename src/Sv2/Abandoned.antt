-- ===== src/Sv2/Abandoned.antt =====
-- src/proto/sv2/relay.rs, `swap_upstream`: which miners hear that their open came to nothing, and under
-- which id.
use blitzpool_rental_proxy.Prelude.{
  ◌≡◌, refl, ap, ap₂, sym, subst, ◌∙◌, ◌⊎◌, ◌↔◌, inl, inr, ℕ, Bool, true, false, Option, none, some,
  List, [], ◌∷◌, ◌++◌, nat_eq,
}
use blitzpool_rental_proxy.Prelude.Dict.{Dict}
use blitzpool_rental_proxy.Session.{UpstreamTarget, Routing}
use blitzpool_rental_proxy.Sv2.{
  OpenSpec, ChannelInfo, Inner, Message, forwarded, open_success, open_error, set_extranonce_prefix,
  set_target,
}
use blitzpool_rental_proxy.Sv2.Channels.{contains}
use blitzpool_rental_proxy.Sv2.Frames.{Sent, Codec, send_if}
use blitzpool_rental_proxy.Sv2.Members.{InList}
use blitzpool_rental_proxy.Sv2.Switch.{abandon, repoint_all, Reopened, finish, swap_upstream}

module _ {A : Type 0} where
  InList-append : (x : A) (xs ys : List A) → InList x (xs ++ ys) ↔ (InList x xs ⊎ InList x ys)
  InList-append x [] ys = (λ h. inr h, λ h. elim h [ inl e ↦ absurd e | inr k ↦ k ])
  InList-append x (a ∷ xs) ys =
      let rest = InList-append x xs ys in
      (
        λ h. elim h [
          | inl e ↦ inl (inl e)
          | inr k ↦ elim (rest.0 k) [ inl l ↦ inl (inr l) | inr r ↦ inr r ]
        ],
        λ h. elim h [
          | inl l ↦ elim l [ inl e ↦ inl e | inr k ↦ inr (rest.1 (inl k)) ]
          | inr r ↦ inr (rest.1 (inr r))
        ],
      )

module _ {W : Type 0} where
  -- An open of this member waits under the proxy's id `up_req`.
  abbrev pub Waits : ℕ → ℕ → Dict ℕ (ℕ × OpenSpec W) → Type 0
  Waits up_req member [] = ⊥
  Waits up_req member ((r, (m, spec)) ∷ pending) =
      ((up_req ≡ r) × (member ≡ m)) ⊎ Waits up_req member pending

  abbrev pub error_to : ℕ → ℕ → Sent W
  error_to member up_req = (member, open_error up_req)

  send_if-InList :
      (x : Sent W) (b : Bool) (owner : ℕ) (m : Message W)
      → InList x (send_if b owner m) ↔ ((b ≡ true) × (x ≡ (owner, m)))
  send_if-InList x true owner m =
      (λ h. elim h [ inl e ↦ (refl, e) | inr k ↦ absurd k ], λ h. inl h.1)
  send_if-InList x false owner m = (λ h. absurd h, λ h. cc)

  error_of : Message W → ℕ
  error_of (open_error up_req) = up_req
  error_of (forwarded frame) = 0
  error_of (open_success spec down group info) = 0
  error_of (set_extranonce_prefix down prefix) = 0
  error_of (set_target down target) = 0

  same_error :
      (member up_req m r : ℕ) → error_to member up_req ≡ error_to m r → (up_req ≡ r) × (member ≡ m)
  unfolding error_of
  same_error member up_req m r e = (ap (λ x. error_of x.1) e, ap (λ x. x.0) e)

  other_message :
      (member up_req m : ℕ) (b : Bool) (message : Message W)
      → (open_error up_req ≡ message → ⊥)
      → InList (error_to member up_req) (send_if b m message)
      → ⊥
  other_message member up_req m b message n h =
      n (ap (λ x. x.1) ((send_if-InList (error_to member up_req) b m message).0 h).1)

  abandon-InList :
      (members : List ℕ) (pending : Dict ℕ (ℕ × OpenSpec W)) (member up_req : ℕ)
      → InList (error_to member up_req) (abandon members pending)
        ↔ ((contains member members ≡ true) × Waits up_req member pending)
  unfolding abandon
  abandon-InList members [] member up_req = (λ h. absurd h, λ h. absurd h.1)
  abandon-InList members ((r, (m, spec)) ∷ pending) member up_req =
      let rest = abandon-InList members pending member up_req in
      let first = send_if-InList (error_to member up_req) (contains m members) m (open_error r) in
      let both =
        InList-append (error_to member up_req) (send_if (contains m members) m (open_error r))
          (abandon members pending) in
      (
        λ h. elim (both.0 h) [
          | inl l ↦
              let same = same_error member up_req m r (first.0 l).1 in
              (ap (λ x. contains x members) same.1 ∙ (first.0 l).0, inl same)
          | inr k ↦ ((rest.0 k).0, inr ((rest.0 k).1))
        ],
        λ h. elim h.1 [
          | inl same ↦ both.1 (
              inl (
                first.1 (
                  ap (λ x. contains x members) (sym same.1) ∙ h.0,
                  ap₂ (λ x y. error_to x y) same.1 same.0,
                )))
          | inr k ↦ both.1 (inr (rest.1 (h.0, k)))
        ],
      )

module _ {W : Type 0} (c : Codec W) where
  repoint_all-InList :
      (members : List ℕ) (repoint : List (ℕ × (ℕ × ChannelInfo))) (member up_req : ℕ)
      → InList (error_to member up_req) (repoint_all c members repoint)
      → ⊥
  unfolding repoint_all
  repoint_all-InList members [] member up_req h = h
  repoint_all-InList members ((down_cid, (owner, info)) ∷ rest) member up_req h =
      let b = contains owner members in
      let prefix = set_extranonce_prefix down_cid info.extranonce_prefix in
      let target = set_target down_cid info.target in
      let e = error_to member up_req in
      elim ((InList-append e (send_if b owner prefix ++ send_if b owner target)
          (repoint_all c members rest)).0
        h) [
          | inl l ↦ elim ((InList-append e (send_if b owner prefix) (send_if b owner target)).0 l) [
            | inl x ↦ other_message member up_req owner b prefix (λ k. cc) x
            | inr y ↦ other_message member up_req owner b target (λ k. cc) y
          ]
          | inr k ↦ repoint_all-InList members rest member up_req k
        ]

  told :
      (i : Inner W) (r : Reopened W) (member up_req : ℕ)
      → InList
          (error_to member up_req)
          (repoint_all c i.members r.repoint ++ abandon i.members i.pending)
        ↔ ((contains member i.members ≡ true) × Waits up_req member i.pending)
  told i r member up_req =
      let both =
        InList-append (error_to member up_req) (repoint_all c i.members r.repoint)
          (abandon i.members i.pending) in
      let errors = abandon-InList i.members i.pending member up_req in
      (
        λ h. elim (both.0 h) [
          | inl l ↦ absurd (repoint_all-InList i.members r.repoint member up_req l)
          | inr k ↦ errors.0 k
        ],
        λ h. both.1 (inr (errors.1 h)),
      )

  sent_lists : {xs ys : List (Sent W)} → some xs ≡ some ys → xs ≡ ys
  sent_lists e = cc

  of_finish :
      (target : UpstreamTarget) (routing : Routing) (i : Inner W) (r : Option (Reopened W))
      (sent : List (Sent W))
      → (finish c target routing i r).0 ≡ some sent
      → ((member up_req : ℕ)
          → InList (error_to member up_req) sent
            ↔ ((contains member i.members ≡ true) × Waits up_req member i.pending))
        × ((finish c target routing i r).1.pending ≡ [])
  unfolding finish
  of_finish target routing i none sent h = cc
  of_finish target routing i (some r) sent h = (
    λ member up_req.
        subst
          (λ xs.
            InList (error_to member up_req) xs
            ↔ ((contains member i.members ≡ true) × Waits up_req member i.pending))
          (sent_lists h) (told i r member up_req),
    refl,
  )

  -- When a switch to an SV2 upstream succeeds, the members that are told of an error are exactly those
  -- that are attached and wait for an open, each under the id that the proxy gave its open towards the
  -- old upstream, and no open waits any more.
  pub swap_upstream-abandons :
      (target : UpstreamTarget) (routing : Routing) (opens : List (Option ChannelInfo))
      (i : Inner W) (sent : List (Sent W))
      → (swap_upstream c target routing opens i).0 ≡ some sent
      → ((member up_req : ℕ)
          → InList (error_to member up_req) sent
            ↔ ((contains member i.members ≡ true) × Waits up_req member i.pending))
        × ((swap_upstream c target routing opens i).1.pending ≡ [])
  unfolding swap_upstream
  swap_upstream-abandons target routing opens i sent h = of_finish target routing _ _ sent h
