-- ===== src/Handshake/Switching.antt =====
-- src/proto/relay.rs, `handle_seller_miner`: what the grace and a live switch do to the session of an
-- SV1 miner, and what it means that its target is the one it should be on.
use blitzpool_rental_proxy.Prelude.{
  Text, ◌≡◌, refl, subst, ap, ◌∙◌, Bool, true, false, Option, none, some, List, [], ◌∷◌,
  if◌then◌else◌, ◌==◌, text_eq, text_beq_iff, arith, ◌&&◌, ◌||◌, &&_true, ◌≢◌,
}
use blitzpool_rental_proxy.Prelude.Strings.{codes}
use blitzpool_rental_proxy.Session.{UpstreamTarget, Routing, idle, rented}
use blitzpool_rental_proxy.Orders.{Order}
use blitzpool_rental_proxy.Relay as Sv1
use blitzpool_rental_proxy.Relay.{
  RpcMessage, Inner, RawUpstream, raw_sv1, raw_sv2, on_miner_msg, on_method, by_method, install_raw,
}
use blitzpool_rental_proxy.Supervise.Sessions.{
  Session, swap_upstream, set_default, attach_order, swapped, force_reconnect,
}
use blitzpool_rental_proxy.Handshake.{
  is_subscribe, noted, same_target, option_text_beq, grace, wanted, attach_if, switch_live,
}

option_text_beq_sound : (a b : Option Text) → option_text_beq a b ≡ true → a ≡ b
option_text_beq_sound none none h = refl
option_text_beq_sound (some s) (some t) h = ap some ((text_beq_iff s t).0 h)
option_text_beq_sound none (some t) h = cc
option_text_beq_sound (some s) none h = cc

pub same_target_sound : (a b : UpstreamTarget) → same_target a b ≡ true → a ≡ b
unfolding same_target
same_target_sound a b h =
    let (h1, key) = &&_true (a.url == b.url && a.user == b.user && a.password == b.password) _ h in
    let (h2, password) =
      &&_true (a.url == b.url && a.user == b.user) (a.password == b.password) h1 in
    let (url, user) = &&_true (a.url == b.url) (a.user == b.user) h2 in
    same_fields a b ((text_beq_iff a.url b.url).0 url) ((text_beq_iff a.user b.user).0 user)
      ((text_beq_iff a.password b.password).0 password) (option_text_beq_sound _ _ key)
  where
    same_fields :
        (a b : UpstreamTarget)
        → a.url ≡ b.url
        → a.user ≡ b.user
        → a.password ≡ b.password
        → a.authority_pubkey ≡ b.authority_pubkey
        → a ≡ b
    same_fields a b e1 e2 e3 e4 = cc

option_text_beq_self : (a : Option Text) → option_text_beq a a ≡ true
option_text_beq_self none = refl
option_text_beq_self (some s) = (text_beq_iff s s).1 refl

pub same_target_self : (a : UpstreamTarget) → same_target a a ≡ true
unfolding same_target
same_target_self a =
    rw
      (
        (text_beq_iff a.url a.url).1 refl,
        (text_beq_iff a.user a.user).1 refl,
        (text_beq_iff a.password a.password).1 refl,
        option_text_beq_self a.authority_pubkey,
      )
      refl

pub not_there : (a b : UpstreamTarget) → same_target a b ≡ false → a ≢ b
not_there a b h e =
    let here : same_target a b ≡ true = ap (λ x. same_target x b) e ∙ same_target_self b in
    absurd (cc (h, here))

pub some_injective : {t u : UpstreamTarget} → some t ≡ some u → t ≡ u
some_injective e = cc

module _ {W : Type 0} where
  abbrev pub routing_for : Option (Order W) → Routing
  routing_for none = idle
  routing_for (some o) = rented o.id

  -- A session that relays to a target on behalf of an order.
  abbrev pub Serves : UpstreamTarget → Routing → Session W → Type 0
  Serves target routing s = (s.inner.target ≡ target) × (s.inner.routing ≡ routing)

  by_method-Serves :
      (method : Text) (msg : RpcMessage W) (i : Inner W)
      → ((by_method method msg i).2.target ≡ i.target)
        × ((by_method method msg i).2.routing ≡ i.routing)
  unfolding by_method Sv1.note_submit
  by_method-Serves method msg i = ground arith

  on_miner_msg-Serves :
      (msg : RpcMessage W) (i : Inner W)
      → ((on_miner_msg msg i).2.target ≡ i.target) × ((on_miner_msg msg i).2.routing ≡ i.routing)
  unfolding on_miner_msg
  on_miner_msg-Serves msg i = by_option msg.method msg i
    where
      by_option :
          (method : Option Text) (msg : RpcMessage W) (i : Inner W)
          → ((on_method method msg i).2.target ≡ i.target)
            × ((on_method method msg i).2.routing ≡ i.routing)
      by_option none msg i = (refl, refl)
      by_option (some method) msg i = by_method-Serves method msg i

  -- What is waited for in the grace changes neither.
  pub grace-Serves :
      (lines : List (RpcMessage W)) (i : Inner W)
      → ((grace lines i).1.target ≡ i.target) × ((grace lines i).1.routing ≡ i.routing)
  unfolding grace
  grace-Serves [] i = (refl, refl)
  grace-Serves (msg ∷ lines) i =
      of_step i.extranonce_capable (is_subscribe msg.method) (on_miner_msg-Serves msg i)
        (grace-Serves lines (on_miner_msg msg i).2)
    where
      of_step :
          (capable subscribes : Bool)
          → ((on_miner_msg msg i).2.target ≡ i.target)
            × ((on_miner_msg msg i).2.routing ≡ i.routing)
          → ((grace lines (on_miner_msg msg i).2).1.target ≡ (on_miner_msg msg i).2.target)
            × ((grace lines (on_miner_msg msg i).2).1.routing ≡ (on_miner_msg msg i).2.routing)
          → let result =
              if capable
              then ([], i)
              else if subscribes
              then ([], record i { extranonce_capable = true })
              else noted (on_miner_msg msg i) (grace lines (on_miner_msg msg i).2) in
            (result.1.target ≡ i.target) × (result.1.routing ≡ i.routing)
      of_step true subscribes h k = (refl, refl)
      of_step false true h k = (refl, refl)
      of_step false false h k = (k.0 ∙ h.0, k.1 ∙ h.1)

  -- The line that a miner sends to say that it takes a new extranonce is among these.
  abbrev pub subscribes : List (RpcMessage W) → Bool
  subscribes [] = false
  subscribes (msg ∷ lines) = is_subscribe msg.method || subscribes lines

  by_method-capable :
      (method : Text) (msg : RpcMessage W) (i : Inner W)
      → (method == codes "mining.extranonce.subscribe") ≡ false
      → (by_method method msg i).2.extranonce_capable ≡ i.extranonce_capable
  unfolding by_method Sv1.note_submit
  by_method-capable method msg i h = ground (arith, h)

  on_miner_msg-capable :
      (msg : RpcMessage W) (i : Inner W)
      → is_subscribe msg.method ≡ false
      → (on_miner_msg msg i).2.extranonce_capable ≡ i.extranonce_capable
  unfolding on_miner_msg
  on_miner_msg-capable msg i h = by_option msg.method h
    where
      by_option :
          (method : Option Text)
          → is_subscribe method ≡ false
          → (on_method method msg i).2.extranonce_capable ≡ i.extranonce_capable
      by_option none h = refl
      by_option (some method) h = by_method-capable method msg i h

  -- After the grace the miner can be switched live if it could before, or said so.
  pub grace-capable :
      (lines : List (RpcMessage W)) (i : Inner W)
      → (grace lines i).1.extranonce_capable ≡ (i.extranonce_capable || subscribes lines)
  unfolding grace
  grace-capable [] i = ground arith
  grace-capable (msg ∷ lines) i =
      of_step i.extranonce_capable (is_subscribe msg.method) refl (on_miner_msg-capable msg i)
        (grace-capable lines (on_miner_msg msg i).2)
    where
      of_step :
          (capable said : Bool)
          → i.extranonce_capable ≡ capable
          → (said ≡ false → (on_miner_msg msg i).2.extranonce_capable ≡ i.extranonce_capable)
          → (grace lines (on_miner_msg msg i).2).1.extranonce_capable
            ≡ ((on_miner_msg msg i).2.extranonce_capable || subscribes lines)
          → (if capable
              then ([], i)
              else if said
              then ([], record i { extranonce_capable = true })
              else noted
                  (on_miner_msg msg i)
                  (grace lines (on_miner_msg msg i).2)).1.extranonce_capable
            ≡ (capable || (said || subscribes lines))
      of_step true said e kept rest = e
      of_step false true e kept rest = refl
      of_step false false e kept rest = rest ∙ ap (λ b. b || subscribes lines) (kept refl ∙ e)

  -- A switch whose connection is there succeeds and serves as asked; without one it fails, and the
  -- session serves as before.
  abbrev pub Switches :
      UpstreamTarget → Routing → Session W → Option (RawUpstream W) → Bool × Session W → Type 0
  Switches target routing s none r = (r.0 ≡ false) × Serves s.inner.target s.inner.routing r.1
  Switches target routing s (some up) r = (r.0 ≡ true) × Serves target routing r.1

  swapped-Switches :
      (target : UpstreamTarget) (routing : Routing) (s : Session W) (reconnects : Bool)
      (i : Inner W) (up : RawUpstream W)
      → i.target ≡ target
      → i.routing ≡ routing
      → Switches target routing s (some up) (swapped s (some reconnects, i))
  unfolding swapped force_reconnect
  swapped-Switches target routing s true i up e k = (refl, (e, k))
  swapped-Switches target routing s false i up e k = (refl, (e, k))

  swap_upstream-Switches :
      (target : UpstreamTarget) (routing : Routing) (raw : Option (RawUpstream W)) (s : Session W)
      → Switches target routing s raw (swap_upstream target routing raw s)
  unfolding swap_upstream swapped Sv1.swap_upstream Sv1.install_raw
  swap_upstream-Switches target routing none s = (refl, (refl, refl))
  swap_upstream-Switches target routing (some (raw_sv1 en1 en2 prelude)) s =
      swapped-Switches target routing s _ _ (raw_sv1 en1 en2 prelude) refl refl
  swap_upstream-Switches target routing (some (raw_sv2 en1 en2 diff line)) s =
      swapped-Switches target routing s _ _ (raw_sv2 en1 en2 diff line) refl refl

  -- `set_default` changes the default first, which nothing here reads.
  with_default :
      (want : UpstreamTarget) (raw : Option (RawUpstream W)) (s : Session W) (r : Bool × Session W)
      → Switches want idle (record s { default_target = want }) raw r
      → Switches want idle s raw r
  with_default want none s r h = h
  with_default want (some up) s r h = h

  pub switch_live-Switches :
      (order : Option (Order W)) (rig : Option UpstreamTarget) (want : UpstreamTarget)
      (raw : Option (RawUpstream W)) (s : Session W)
      → wanted order rig ≡ some want
      → Switches want (routing_for order) s raw (switch_live order want raw s)
  unfolding switch_live set_default
  switch_live-Switches none rig want raw s e =
      with_default want raw s (swap_upstream want idle raw (record s { default_target = want }))
        (swap_upstream-Switches want idle raw (record s { default_target = want }))
  switch_live-Switches (some o) rig want raw s e =
      subst (λ x. Switches x (rented o.id) s raw (swap_upstream o.target (rented o.id) raw s))
        (some_injective e) (swap_upstream-Switches o.target (rented o.id) raw s)

  pub attach_if-Serves :
      (order : Option (Order W)) (want : UpstreamTarget) (s : Session W)
      → s.inner.target ≡ want
      → s.inner.routing ≡ idle
      → Serves want (routing_for order) (attach_if order s)
  unfolding attach_order
  attach_if-Serves none want s e k = (e, k)
  attach_if-Serves (some o) want s e k = (e, refl)
