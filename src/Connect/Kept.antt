-- ===== src/Connect/Kept.antt =====
-- src/proto/relay.rs, src/proto/sv2/relay.rs: what a handshake keeps of the lines of an SV1 pool.
use blitzpool_rental_proxy.Prelude.{
  Text, ℕ, ◌%◌, ◌^◌, ◌≡◌, refl, sym, ap, ◌∙◌, true, false, Option, some, List, [], ◌∷◌, ◌++◌, ok,
  err,
}
use mathlib.Core.List.{append-nil, append_assoc}
use blitzpool_rental_proxy.Prelude.Float.{Float}
use blitzpool_rental_proxy.Connect.{
  Reply, Heard, blank, garbled, notice, reply, closed, Writes, newline_after, read_response,
  request, subscribe_and_authorize, connect_upstream, parse_version_mask, sv1_conn,
  connect_sv1_upstream,
}

-- Nothing of these lines is a response.
abbrev pub Quiet : List Heard → Type 0
Quiet [] = Unit {0}
Quiet (blank ∷ lines) = Quiet lines
Quiet (garbled ∷ lines) = Quiet lines
Quiet (notice line ∷ lines) = Quiet lines
Quiet (reply r ∷ lines) = ⊥

abbrev pub notices : List Heard → List Text
notices [] = []
notices (blank ∷ lines) = notices lines
notices (garbled ∷ lines) = notices lines
notices (notice line ∷ lines) = newline_after line ∷ notices lines
notices (reply r ∷ lines) = notices lines

read_response-reads :
    (lines rest : List Heard) (r : Reply) (p : List Text)
    → Quiet lines
    → read_response (lines ++ reply r ∷ rest) p ≡ ok (r, p ++ notices lines, rest)
unfolding read_response
read_response-reads [] rest r p h = ap (λ q. ok (r, q, rest)) (sym (append-nil p))
read_response-reads (blank ∷ lines) rest r p h = read_response-reads lines rest r p h
read_response-reads (garbled ∷ lines) rest r p h = read_response-reads lines rest r p h
read_response-reads (notice line ∷ lines) rest r p h =
    read_response-reads lines rest r (p ++ newline_after line ∷ []) h
    ∙ ap (λ q. ok (r, q, rest)) (append_assoc p (newline_after line ∷ []) (notices lines))
read_response-reads (reply _ ∷ lines) rest r p h = elim h [ ]

read_response-closed :
    (lines : List Heard) (p : List Text) → Quiet lines → read_response lines p ≡ err closed
unfolding read_response
read_response-closed [] p h = refl
read_response-closed (blank ∷ lines) p h = read_response-closed lines p h
read_response-closed (garbled ∷ lines) p h = read_response-closed lines p h
read_response-closed (notice line ∷ lines) p h =
    read_response-closed lines (p ++ newline_after line ∷ []) h
read_response-closed (reply _ ∷ lines) p h = elim h [ ]

abbrev pub all_sent : Writes
all_sent = record { configure = true; subscribe = true; authorize = true }

-- The lines of the two last answers.
abbrev pub answered : List Heard → List Heard → List Heard → Reply → Reply → List Heard
answered before between rest sub auth = before ++ (reply sub ∷ (between ++ (reply auth ∷ rest)))

module _ (before between rest : List Heard) (sub auth : Reply) (en1 : Text) (en2 : ℕ)
    (quiet_before : Quiet before) (quiet_between : Quiet between)
    (subscribed : sub.subscribed ≡ some (en1, en2)) where
  subscribe_and_authorize-reads :
      (p : List Text)
      → subscribe_and_authorize all_sent p (answered before between rest sub auth)
        ≡ ok (record {
          extranonce1 = en1;
          extranonce2_size = en2 % 2 ^ 32;
          prelude = (p ++ notices before) ++ notices between;
          unread = rest;
        })
  unfolding subscribe_and_authorize request
  subscribe_and_authorize-reads p =
      rw
        (
          read_response-reads before (between ++ reply auth ∷ rest) sub p quiet_before,
          subscribed,
          read_response-reads between rest auth (p ++ notices before) quiet_between,
        )
        refl

  -- Let a pool answer the subscribe with an extranonce, after lines `before`, and then the authorize,
  -- after lines `between`, and maybe first a replayed configure, after lines `first`, where none of these
  -- lines is a response and every request is written. Then the handshake succeeds with that
  -- extranonce, keeps the notifications among these lines, all of them and in order, and leaves
  -- what follows unread. When the pool closes before its first response it fails.
  pub connect_upstream-Kept :
      (first : List Heard) (cfg : Reply)
      → Quiet first
      → (connect_upstream false all_sent (answered before between rest sub auth)
          ≡ ok (record {
            extranonce1 = en1;
            extranonce2_size = en2 % 2 ^ 32;
            prelude = notices before ++ notices between;
            unread = rest;
          }))
        × (connect_upstream true all_sent
              (first ++ (reply cfg ∷ answered before between rest sub auth))
            ≡ ok (record {
              extranonce1 = en1;
              extranonce2_size = en2 % 2 ^ 32;
              prelude = (notices first ++ notices before) ++ notices between;
              unread = rest;
            }))
        × (connect_upstream true all_sent first ≡ err closed)
        × (connect_upstream false all_sent first ≡ err closed)
  unfolding connect_upstream subscribe_and_authorize request
  connect_upstream-Kept first cfg h = (
    subscribe_and_authorize-reads [],
    rw (read_response-reads first (answered before between rest sub auth) cfg [] h)
        (subscribe_and_authorize-reads (notices first)),
    rw (read_response-closed first [] h) refl,
    rw (read_response-closed first [] h) refl,
  )

  module _ {W : Type 0} ⦃f : Float W⦄ (difficulty : Text → Option W)
      (from_hex : Text → Option (List ℕ)) where
    connect_sv1_upstream-Kept :
        (first : List Heard) (cfg : Reply) (bytes : List ℕ)
        → Quiet first
        → from_hex en1 ≡ some bytes
        → connect_sv1_upstream difficulty from_hex all_sent
            (first ++ (reply cfg ∷ answered before between rest sub auth))
          ≡ sv1_conn difficulty from_hex
              (en2 % 2 ^ 16)
              (parse_version_mask cfg)
              ((notices first ++ notices before) ++ notices between)
              rest
              (some bytes)
    unfolding connect_sv1_upstream request
    connect_sv1_upstream-Kept first cfg bytes h hex =
        rw
          (
            read_response-reads first (answered before between rest sub auth) cfg [] h,
            read_response-reads before (between ++ reply auth ∷ rest) sub (notices first)
                quiet_before,
            subscribed,
            read_response-reads between rest auth (notices first ++ notices before) quiet_between,
            hex,
          )
          refl
