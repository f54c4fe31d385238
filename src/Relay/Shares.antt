-- ===== src/Relay/Shares.antt =====
-- src/proto/relay.rs: what a line from the upstream may credit.
use blitzpool_rental_proxy.Prelude.{
  Text, ℕ, ◌≡◌, ◌≢◌, refl, ap, ◌∙◌, inl, inr, true, ◌&&◌, Option, none, some, nat_beq, nat_beq_iff,
  Bool-cases, arith, text_eq, text_beq_iff,
}
use blitzpool_rental_proxy.Prelude.Dict.{lookup, remove, lookup-remove}
use blitzpool_rental_proxy.Prelude.Float.{Float}
use blitzpool_rental_proxy.Session.{Routing, idle, rented}
use blitzpool_rental_proxy.Relay.{
  RpcMessage, Inner, on_upstream_msg, on_response, on_line, settle, order_credit,
}

module _ {W : Type 0} ⦃f : Float W⦄ where
  -- A line of an upstream that was swapped away is not forwarded, credits nothing and changes nothing.
  pub on_upstream_msg-stale :
      (now generation : ℕ) (msg : RpcMessage W) (i : Inner W)
      → generation ≢ i.generation
      → on_upstream_msg now generation msg i ≡ (none, none, i)
  unfolding on_upstream_msg
  on_upstream_msg-stale now generation msg i h = ground (arith, nat_beq_iff generation i.generation)

  settle-pending :
      (now generation : ℕ) (msg : RpcMessage W) (p : Option (ℕ × W)) (i : Inner W)
      → (settle now generation msg p i).1.pending ≡ i.pending
  unfolding settle
  settle-pending now generation msg none i = refl
  settle-pending now generation msg (some (g, diff)) i =
      elim (Bool-cases (nat_beq g generation && msg.result_true)) [ inl e ↦ rw e | inr e ↦ rw e ]

  order_credit-some :
      (r : Routing) (diff work : W) (n count : ℕ) (order : Text)
      → order_credit r diff n ≡ some (order, work, count)
      → (r ≡ rented order) × (diff ≡ work) × (count ≡ n)
  order_credit-some idle diff work n count order h = cc
  order_credit-some (rented o) diff work n count order h = ground (arith, h)

  settle-credit :
      (now generation : ℕ) (msg : RpcMessage W) (p : Option (ℕ × W)) (i : Inner W) (order : Text)
      (work : W) (count : ℕ)
      → (settle now generation msg p i).0 ≡ some (order, work, count)
      → (msg.result_true ≡ true)
        × (p ≡ some (generation, work))
        × (i.routing ≡ rented order)
        × (count ≡ 1)
  unfolding settle
  settle-credit now generation msg none i order work count h = cc
  settle-credit now generation msg (some (g, diff)) i order work count h =
      ground
        (arith, order_credit-some i.routing diff work 1 count order, nat_beq_iff g generation, h)

  on_line-credit :
      (now generation : ℕ) (msg : RpcMessage W) (m : Option Text) (i : Inner W) (order : Text)
      (work : W) (count : ℕ)
      → (on_line now generation msg m i).0 ≡ some (order, work, count)
      → (m ≡ none)
        × (msg.result_true ≡ true)
        × (lookup msg.id i.pending ≡ some (generation, work))
        × (i.routing ≡ rented order)
        × (count ≡ 1)
        × (lookup msg.id (on_line now generation msg m i).1.pending ≡ none)
  unfolding on_line on_response
  on_line-credit now generation msg (some method) i order work count h = cc
  on_line-credit now generation msg none i order work count h =
      let i' = record i { pending = remove msg.id i.pending } in
      let (t, p, r, c) =
        settle-credit now generation msg (lookup msg.id i.pending) i' order work count h in
      (
        refl,
        t,
        p,
        r,
        c,
        ap (lookup msg.id) (settle-pending now generation msg (lookup msg.id i.pending) i')
            ∙ (lookup-remove msg.id msg.id i.pending ∙ ground (arith, text_beq_iff msg.id msg.id)),
      )

  -- An order is credited only by a response `true` of the current upstream to a submit that waits and
  -- was sent under this generation. It is the order that the session is rented for, by one share at
  -- the difficulty noted with the submit; and no submit waits under this id afterwards, so that a
  -- second response credits nothing.
  pub on_upstream_msg-credit :
      (now generation : ℕ) (msg : RpcMessage W) (i : Inner W) (order : Text) (work : W) (count : ℕ)
      → (on_upstream_msg now generation msg i).1 ≡ some (order, work, count)
      → (generation ≡ i.generation)
        × (msg.method ≡ none)
        × (msg.result_true ≡ true)
        × (lookup msg.id i.pending ≡ some (generation, work))
        × (i.routing ≡ rented order)
        × (count ≡ 1)
        × (lookup msg.id (on_upstream_msg now generation msg i).2.pending ≡ none)
  unfolding on_upstream_msg
  on_upstream_msg-credit now generation msg i order work count h =
      elim (Bool-cases (nat_beq generation i.generation)) [
        | inl e ↦
            let (m, t, p, r, c, gone) =
              on_line-credit now generation msg msg.method i order work count
                (ground (arith, e, h)) in
            rw e ((nat_beq_iff generation i.generation).0 e, m, t, p, r, c, gone)
        | inr e ↦ absurd (ground (arith, e, h))
      ]
