-- ===== src/Relay/Bounds.antt =====
-- src/proto/relay.rs: the counts of shares in the session of an SV1 miner, whichever its upstreams speak.
use blitzpool_rental_proxy.Prelude.{
  Text, ℕ, suc, ◌+◌, ◌≤◌, ◌≡◌, inl, inr, Bool, true, false, ◌&&◌, Option, none, some, List, [], ◌∷◌,
  if◌then◌else◌, nat_beq, Bool-cases, Option-cases, arith, text_eq, ◌==◌, length,
}
use blitzpool_rental_proxy.Prelude.Dict.{Dict, lookup, insert, remove}
use blitzpool_rental_proxy.Prelude.Strings.{codes}
use blitzpool_rental_proxy.Prelude.Float.{Float}
use blitzpool_rental_proxy.Session.{UpstreamTarget, Routing}
use blitzpool_rental_proxy.Relay.{
  RpcMessage, Inner, RawUpstream, raw_sv1, raw_sv2, on_upstream_msg, on_response, on_line, settle,
  credit_translate_accepted, set_translate_difficulty, send_or_stash, on_miner_msg, on_method,
  by_method, note_submit, install_raw, swap_upstream, or_keep,
}

module _ {V : Type 0} where
  length-insert : (k : Text) (v : V) (m : Dict Text V) → length (insert k v m) ≤ suc (length m)
  unfolding insert
  length-insert k v [] = omega arith
  length-insert k v ((j, w) ∷ m) = ground (arith, length-insert k v m)

  length-remove : (k : Text) (m : Dict Text V) → length (remove k m) ≤ length m
  unfolding remove
  length-remove k [] = omega arith
  length-remove k ((j, w) ∷ m) = ground (arith, length-remove k m)

  length-remove-some :
      (k : Text) (m : Dict Text V) (v : V)
      → lookup k m ≡ some v
      → suc (length (remove k m)) ≤ length m
  unfolding remove lookup
  length-remove-some k [] v h = cc
  length-remove-some k ((j, w) ∷ m) v h =
      ground (arith, length-remove k m, length-remove-some k m v)

-- What happens to a session: a line of an SV1 upstream (time, generation, line), a line of the miner, a
-- switch with what its connection brings; and from an SV2 upstream an answer (time, generation, how many
-- shares it says it accepted), a target (generation, difficulty) and a line for the miner (generation).
pub data Event (W : Type 0) : Type 0 where
  upstream_line : ℕ → ℕ → RpcMessage W → Event W
  miner_line : RpcMessage W → Event W
  switched : UpstreamTarget → Routing → Option (RawUpstream W) → Event W
  sv2_accepted : ℕ → ℕ → ℕ → Event W
  sv2_target : ℕ → W → Event W
  sv2_line : ℕ → Text → Event W

module _ {W : Type 0} ⦃f : Float W⦄ where
  abbrev pub after : Event W → Inner W → Inner W
  after (upstream_line now generation msg) i = (on_upstream_msg now generation msg i).2
  after (miner_line msg) i = (on_miner_msg msg i).2
  after (switched target routing raw) i = (swap_upstream target routing raw i).1
  after (sv2_accepted now generation count) i = (credit_translate_accepted now generation count i).1
  after (sv2_target generation diff) i = (set_translate_difficulty generation diff i).1
  after (sv2_line generation line) i = (send_or_stash generation line i).1

  -- How many shares an SV2 upstream says that it accepted.
  abbrev pub claim : Event W → ℕ
  claim (upstream_line now generation msg) = 0
  claim (miner_line msg) = 0
  claim (switched target routing raw) = 0
  claim (sv2_accepted now generation count) = count
  claim (sv2_target generation diff) = 0
  claim (sv2_line generation line) = 0

  abbrev pub claimed : List (Event W) → ℕ
  claimed [] = 0
  claimed (e ∷ es) = claim e + claimed es

  abbrev pub run : List (Event W) → Inner W → Inner W
  run [] i = i
  run (e ∷ es) i = run es (after e i)

  -- But for `extra` of them, each accepted share and each submit that waits was submitted.
  abbrev pub Accounted : ℕ → Inner W → Type 0
  Accounted extra i = i.accepted_shares + length i.pending ≤ i.submitted_shares + extra

module _ {W : Type 0} ⦃f : Float W⦄ (extra : ℕ) where
  if-Accounted :
      (b : Bool) (i j : Inner W)
      → Accounted extra i
      → Accounted extra j
      → Accounted extra (if b then i else j)
  if-Accounted true i j h k = h
  if-Accounted false i j h k = k

  settle-Accounted :
      (now generation : ℕ) (msg : RpcMessage W) (g : ℕ) (diff : W) (i : Inner W)
      → suc (i.accepted_shares + length i.pending) ≤ i.submitted_shares + extra
      → Accounted extra (settle now generation msg (some (g, diff)) i).1
  unfolding settle
  settle-Accounted now generation msg g diff i h =
      elim (Bool-cases (nat_beq g generation && msg.result_true)) [
        | inl e ↦ rw e (omega (arith, h))
        | inr e ↦ rw e (omega (arith, h))
      ]

  on_line-Accounted :
      (now generation : ℕ) (msg : RpcMessage W) (m : Option Text) (i : Inner W)
      → Accounted extra i
      → Accounted extra (on_line now generation msg m i).1
  unfolding on_line on_response settle
  on_line-Accounted now generation msg (some method) i h =
      if-Accounted (method == codes "mining.set_difficulty")
        (record i { current_difficulty = or_keep msg.first_number i.current_difficulty }) i h h
  on_line-Accounted now generation msg none i h = elim (Option-cases (lookup msg.id i.pending)) [
    | inl e ↦ rw e (omega (arith, length-remove msg.id i.pending, h))
    | inr (p, e) ↦ rw e (
        settle-Accounted now generation msg p.0 p.1 (record i { pending = remove msg.id i.pending })
          (omega (arith, length-remove-some msg.id i.pending p e, h)))
  ]

  on_upstream_msg-Accounted :
      (now generation : ℕ) (msg : RpcMessage W) (i : Inner W)
      → Accounted extra i
      → Accounted extra (on_upstream_msg now generation msg i).2
  unfolding on_upstream_msg
  on_upstream_msg-Accounted now generation msg i h =
      elim (Bool-cases (nat_beq generation i.generation)) [
        | inl e ↦ rw e (on_line-Accounted now generation msg msg.method i h)
        | inr e ↦ rw e h
      ]

  note_submit-Accounted :
      (msg : RpcMessage W) (i : Inner W) → Accounted extra i → Accounted extra (note_submit msg i)
  unfolding note_submit
  note_submit-Accounted msg i h = elim (Bool-cases i.translating) [
    | inl e ↦ rw e (omega (arith, h))
    | inr e ↦
        rw e (omega (arith, length-insert msg.id (i.generation, i.current_difficulty) i.pending, h))
  ]

  by_method-Accounted :
      (method : Text) (msg : RpcMessage W) (i : Inner W)
      → Accounted extra i
      → Accounted extra (by_method method msg i).2
  unfolding by_method
  by_method-Accounted method msg i h = elim (Bool-cases (method == codes "mining.authorize")) [
    | inl e ↦ rw e h
    | inr e ↦ elim (Bool-cases (method == codes "mining.submit")) [
      | inl e' ↦ rw (e, e') (note_submit-Accounted msg i h)
      | inr e' ↦ elim (Bool-cases (method == codes "mining.extranonce.subscribe")) [
        | inl e'' ↦ rw (e, e', e'') h
        | inr e'' ↦ elim (Bool-cases (method == codes "mining.configure")) [
          | inl d ↦ rw (e, e', e'', d) h
          | inr d ↦ rw (e, e', e'', d) h
        ]
      ]
    ]
  ]

  on_miner_msg-Accounted :
      (msg : RpcMessage W) (i : Inner W)
      → Accounted extra i
      → Accounted extra (on_miner_msg msg i).2
  unfolding on_miner_msg
  on_miner_msg-Accounted msg i h = of_method msg.method
    where
      of_method : (m : Option Text) → Accounted extra (on_method m msg i).2
      of_method none = h
      of_method (some method) = by_method-Accounted method msg i h

  credit_translate_accepted-Accounted :
      (now generation count : ℕ) (i : Inner W)
      → Accounted extra i
      → Accounted (extra + count) (credit_translate_accepted now generation count i).1
  unfolding credit_translate_accepted
  credit_translate_accepted-Accounted now generation count i h = ground (arith, h)

  set_translate_difficulty-Accounted :
      (generation : ℕ) (diff : W) (i : Inner W)
      → Accounted extra i
      → Accounted extra (set_translate_difficulty generation diff i).1
  unfolding set_translate_difficulty
  set_translate_difficulty-Accounted generation diff i h = ground (arith, h)

  send_or_stash-Accounted :
      (generation : ℕ) (line : Text) (i : Inner W)
      → Accounted extra i
      → Accounted extra (send_or_stash generation line i).1
  unfolding send_or_stash
  send_or_stash-Accounted generation line i h = ground (arith, h)

  swap_upstream-Accounted :
      (target : UpstreamTarget) (routing : Routing) (raw : Option (RawUpstream W)) (i : Inner W)
      → Accounted extra i
      → Accounted extra (swap_upstream target routing raw i).1
  unfolding swap_upstream install_raw
  swap_upstream-Accounted target routing none i h = h
  swap_upstream-Accounted target routing (some (raw_sv1 en1 en2 prelude)) i h = omega (arith, h)
  swap_upstream-Accounted target routing (some (raw_sv2 en1 en2 diff line)) i h = omega (arith, h)

  plus_none : (i : Inner W) → Accounted extra i → Accounted (extra + 0) i
  plus_none i h = omega (arith, h)

  after-Accounted :
      (e : Event W) (i : Inner W) → Accounted extra i → Accounted (extra + claim e) (after e i)
  after-Accounted (upstream_line now generation msg) i h =
      plus_none (on_upstream_msg now generation msg i).2
        (on_upstream_msg-Accounted now generation msg i h)
  after-Accounted (miner_line msg) i h =
      plus_none (on_miner_msg msg i).2 (on_miner_msg-Accounted msg i h)
  after-Accounted (switched target routing raw) i h =
      plus_none (swap_upstream target routing raw i).1
        (swap_upstream-Accounted target routing raw i h)
  after-Accounted (sv2_accepted now generation count) i h =
      credit_translate_accepted-Accounted now generation count i h
  after-Accounted (sv2_target generation diff) i h =
      plus_none (set_translate_difficulty generation diff i).1
        (set_translate_difficulty-Accounted generation diff i h)
  after-Accounted (sv2_line generation line) i h =
      plus_none (send_or_stash generation line i).1 (send_or_stash-Accounted generation line i h)

module _ {W : Type 0} ⦃f : Float W⦄ where
  -- Over any lines of upstreams and of the miner, any frames of SV2 upstreams and any switches, in any
  -- order, a session never counts more shares as accepted or waiting than the miner submitted, but for
  -- those that the SV2 upstreams said that they accepted.
  pub run-Accounted :
      (extra : ℕ) (es : List (Event W)) (i : Inner W)
      → Accounted extra i
      → Accounted (extra + claimed es) (run es i)
  run-Accounted extra [] i h = plus_none extra i h
  run-Accounted extra (e ∷ es) i h =
      let rest = run-Accounted (extra + claim e) es (after e i) (after-Accounted extra e i h) in
      omega (arith, rest)
