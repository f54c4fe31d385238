-- ===== src/Examples/Rentals.antt =====
-- Rentals of Examples/Data.antt under the theorems on orders.
use mathlib.Core.Option
use blitzpool_rental_proxy.Prelude.{
  ◌&&◌, false, Text, ℕ, ◌≡◌, refl, ◌↔◌, inl, Bool, true, not, none, some, List, [], ◌∷◌, map, err,
  arith, if◌then◌else◌, ◌==◌, text_eq, text_beq,
}
use blitzpool_rental_proxy.Prelude.Strings.{codes}
use blitzpool_rental_proxy.Prelude.Dict.{lookup, UniqueKeys}
use blitzpool_rental_proxy.Prelude.Int.{pos}
use blitzpool_rental_proxy.Control.{AnySession}
use blitzpool_rental_proxy.Registry.{get_all}
use blitzpool_rental_proxy.Orders.{Order, is_live, is_finished}
use blitzpool_rental_proxy.Orders.Row.{into_order, active_word}
use blitzpool_rental_proxy.Orders.Store.{
  already_active, get, create, cancel, active_for_worker, flush, order_id,
}
use blitzpool_rental_proxy.Orders.Unique.{
  Distinct, Op, creates, works, flushes, cancels, expires, run, run-Distinct,
}
use blitzpool_rental_proxy.Orders.Live.{Answers, is_finished-eq-not-live, active_for_worker-Answers}
use blitzpool_rental_proxy.Orders.Created.{Taken, create-Taken, get-create}
use blitzpool_rental_proxy.Orders.Expiry.{InList, expiry_round, expiry_round_lem}
use blitzpool_rental_proxy.Orders.Accounting.{row_at, settle, flush_lem}
use blitzpool_rental_proxy.Orders.Cancelled.{cancelled_order, get-cancel}
use blitzpool_rental_proxy.Examples.Data.{whole, pool, row, store, live_sessions}

store-Distinct : Distinct store.orders
store-Distinct = (((λ e. ground (arith, e), λ h k e. ground (arith, e)), tt), (tt, tt))

pending-UniqueKeys : UniqueKeys store.pending
unfolding lookup
pending-UniqueKeys = (refl, tt)

abbrev answered : Text → Bool
answered id = true

-- All but the order `a`.
abbrev refused : Text → Bool
refused id = not (id == codes "a")

-- The order `a`, as it reads.
abbrev first_order : Order ℕ
first_order = into_order (row (codes "a") (codes "w") (pos 100) active_word)

abbrev history : List (Op ℕ)
history =
    creates true (pos 3) (codes "v") pool none (pos 0) 1 0
    ∷ works (codes "a") 4 1
    ∷ flushes answered
    ∷ cancels true true (pos 8) (codes "b")
    ∷ expires true answered (pos 200)
    ∷ []

run-Distinct_example : Distinct (run history store).orders
run-Distinct_example = run-Distinct history store store-Distinct

create-Taken_example :
    ((create true (pos 3) (codes "w") pool none (pos 0) 1 0 store).0 ≡ err already_active)
    ↔ Taken (order_id (pos 3) 7) (codes "w") store.orders
create-Taken_example = create-Taken (pos 3) (codes "w") pool none (pos 0) 1 0 store

abbrev new_order : Order ℕ
new_order = record first_order {
  id = order_id (pos 3) 7;
  worker = codes "v";
  created_ms = pos 3;
  until_ms = pos 0;
  accepted_shares = 0;
  submitted_shares = 0;
}

get-create_example :
    get true (codes "a") (create true (pos 3) (codes "v") pool none (pos 0) 1 0 store).1
    ≡ (if new_order.id == codes "a" then some new_order else get true (codes "a") store)
unfolding into_order create text_beq order_id
get-create_example =
    get-create (pos 3) (codes "v") pool none (pos 0) 1 0 store new_order refl (codes "a")

is_finished-eq-not-live_example :
    is_finished (pos 100) first_order ≡ not (is_live first_order (pos 100))
unfolding into_order text_beq
is_finished-eq-not-live_example = is_finished-eq-not-live (pos 100) first_order refl (omega arith)

active_for_worker-Answers_example :
    Answers (codes "w") (pos 40) store.orders (active_for_worker true (codes "w") (pos 40) store)
    × (active_for_worker false (codes "w") (pos 40) store ≡ none)
active_for_worker-Answers_example = active_for_worker-Answers (codes "w") (pos 40) store

expiry_round_lem_example :
    ((x : AnySession)
      → InList x (get_all (codes "w") live_sessions)
      → InList x (expiry_round answered true refused (pos 100) live_sessions store).0)
    × ((selected : Bool)
        → active_for_worker true
            (codes "w")
            (pos 101)
            (expiry_round answered selected refused (pos 100) live_sessions store).1
          ≡ none)
unfolding flush text_beq into_order is_finished
expiry_round_lem_example =
    expiry_round_lem answered refused (pos 100) (pos 101) live_sessions (codes "w") store
      store-Distinct (omega arith) (inl (refl, refl))

flush_lem_example :
    (row_at (codes "a") (flush answered store).orders
      ≡ Option.map
          (settle true (lookup (codes "a") store.pending))
          (row_at (codes "a") store.orders))
    × ((flush answered store).pending ≡ [])
flush_lem_example = flush_lem answered store (codes "a") pending-UniqueKeys

get-cancel_example :
    ((cancel true true (pos 60) (codes "a") store).0
      ≡ Option.map (cancelled_order (pos 60)) (get true (codes "a") store))
    × (get true (codes "a") (cancel true true (pos 60) (codes "a") store).1 ≡ (
        if true && true && (codes "a" == codes "a")
        then Option.map (cancelled_order (pos 60)) (get true (codes "a") store)
        else get true (codes "a") store))
get-cancel_example = get-cancel true true (pos 60) (codes "a") (codes "a") store
