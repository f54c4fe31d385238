-- ===== src/Registry/Grouping.antt =====
-- src/registry.rs, `insert` and `remove_if`: the sessions of each rig.
use blitzpool_rental_proxy.Prelude.{
  Text, ◌≡◌, refl, ◌≢◌, inl, inr, none, some, List, [], ◌∷◌, ◌++◌, arith, ◌==◌, text_eq,
  text_beq_iff, if◌then◌else◌, Option-cases,
}
use blitzpool_rental_proxy.Prelude.Dict.{lookup, lookup-insert, lookup-remove}
use blitzpool_rental_proxy.Control.{AnySession}
use blitzpool_rental_proxy.Registry.{Registry, get_all, join, without, left_over, remove_if}

-- No rig is listed without a session.
abbrev pub IsTidy : Registry → Type 0
IsTidy r = (worker : Text) → lookup worker r ≢ some []

-- A session that joins stands behind its siblings, and no other rig changes.
get_all-join :
    (worker other : Text) (session : AnySession) (r : Registry)
    → get_all other (join worker session r)
      ≡ (if worker == other then get_all worker r ++ session ∷ [] else get_all other r)
unfolding join
get_all-join worker other session r =
    rw (lookup-insert worker other (get_all worker r ++ session ∷ []) r) (ground arith)

get_all-left_over :
    (worker other : Text) (kept : List AnySession) (r : Registry)
    → get_all other (left_over worker kept r) ≡ (if worker == other then kept else get_all other r)
unfolding get_all left_over
get_all-left_over worker other [] r = rw (lookup-remove worker other r) (ground arith)
get_all-left_over worker other (s ∷ kept) r =
    rw (lookup-insert worker other (s ∷ kept) r) (ground arith)

get_all-none : (worker : Text) (r : Registry) → lookup worker r ≡ none → get_all worker r ≡ []
unfolding get_all
get_all-none worker r e = rw e

get_all-some :
    (worker : Text) (r : Registry) {sessions : List AnySession}
    → lookup worker r ≡ some sessions
    → get_all worker r ≡ sessions
unfolding get_all
get_all-some worker r e = rw e

without-nil : (session : AnySession) → without session [] ≡ []
unfolding without
without-nil session = refl

append-ne-nil : (sessions : List AnySession) (session : AnySession) → sessions ++ session ∷ [] ≢ []
append-ne-nil [] session = ground arith
append-ne-nil (s ∷ rest) session = ground arith

-- A disconnect takes every entry of exactly that session out of its rig. Its siblings keep their
-- order, and no other rig changes.
pub get_all-remove_if :
    (worker other : Text) (session : AnySession) (r : Registry)
    → get_all other (remove_if worker session r)
      ≡ (if worker == other then without session (get_all worker r) else get_all other r)
unfolding remove_if
get_all-remove_if worker other session r = elim (Option-cases (lookup worker r)) [
  | inl e ↦ rw (e, remove_if) (missing other e)
  | inr (sessions, e) ↦ rw (
    e,
    remove_if,
    get_all-left_over worker other (without session sessions) r,
    get_all-some worker r e,
  )
]
  where
    missing :
        (other : Text)
        → lookup worker r ≡ none
        → get_all other r
          ≡ (if worker == other then without session (get_all worker r) else get_all other r)
    missing other e =
        ground (arith, text_beq_iff worker other, get_all-none worker r e, without-nil session)

-- After a session left, its rig holds no entry of it: a second disconnect of it changes nothing.
pub without-without :
    (session : AnySession) (sessions : List AnySession)
    → without session (without session sessions) ≡ without session sessions
unfolding without
without-without session [] = refl
without-without session (s ∷ rest) = ground (arith, without-without session rest)

tidy_of :
    (worker other : Text) (kept : List AnySession) (r : Registry)
    → IsTidy r
    → lookup other (left_over worker kept r) ≢ some []
unfolding left_over
tidy_of worker other [] r h = rw (lookup-remove worker other r) (ground (arith, h other))
tidy_of worker other (s ∷ kept) r h =
    rw (lookup-insert worker other (s ∷ kept) r) (ground (arith, h other))

-- No rig is ever listed without a session: one more session or one less keeps that.
pub join-IsTidy :
    (worker : Text) (session : AnySession) (r : Registry)
    → IsTidy r
    → IsTidy (join worker session r)
unfolding join
join-IsTidy worker session r h other =
    rw (lookup-insert worker other (get_all worker r ++ session ∷ []) r)
      (ground (arith, h other, append-ne-nil (get_all worker r) session))

pub remove_if-IsTidy :
    (worker : Text) (session : AnySession) (r : Registry)
    → IsTidy r
    → IsTidy (remove_if worker session r)
unfolding remove_if
remove_if-IsTidy worker session r h other = elim (Option-cases (lookup worker r)) [
  | inl e ↦ rw (e, remove_if) (h other)
  | inr (sessions, e) ↦ rw (e, remove_if) (tidy_of worker other (without session sessions) r h)
]
