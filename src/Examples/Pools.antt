-- ===== src/Examples/Pools.antt =====
-- An SV1 pool that speaks before it answers, under the theorem on the handshake.
use blitzpool_rental_proxy.Prelude.{
  ◌%◌, ◌^◌, ◌≡◌, refl, true, false, none, some, List, [], ◌∷◌, ◌++◌, ok, err,
}
use blitzpool_rental_proxy.Prelude.Strings.{codes}
use blitzpool_rental_proxy.Connect.{
  Reply, Heard, blank, garbled, notice, reply, closed, connect_upstream,
}
use blitzpool_rental_proxy.Connect.Kept.{notices, all_sent, answered, connect_upstream-Kept}

abbrev plain_reply : Reply
plain_reply = record { subscribed = none; rolls_version = false; mask = none }

abbrev subscribe_reply : Reply
subscribe_reply = record { subscribed = some (codes "ab", 4); rolls_version = false; mask = none }

abbrev early : List Heard
early = blank ∷ notice (codes "difficulty") ∷ []

abbrev later : List Heard
later = garbled ∷ notice (codes "notify") ∷ []

connect_upstream-Kept_example :
    (connect_upstream false all_sent (answered early later [] subscribe_reply plain_reply)
      ≡ ok (record {
        extranonce1 = codes "ab";
        extranonce2_size = 4 % 2 ^ 32;
        prelude = notices early ++ notices later;
        unread = [];
      }))
    × (connect_upstream true all_sent
          (early ++ (reply plain_reply ∷ answered early later [] subscribe_reply plain_reply))
        ≡ ok (record {
          extranonce1 = codes "ab";
          extranonce2_size = 4 % 2 ^ 32;
          prelude = (notices early ++ notices early) ++ notices later;
          unread = [];
        }))
    × (connect_upstream true all_sent early ≡ err closed)
    × (connect_upstream false all_sent early ≡ err closed)
connect_upstream-Kept_example =
    connect_upstream-Kept early later [] subscribe_reply plain_reply (codes "ab") 4 tt tt refl early
      plain_reply tt
