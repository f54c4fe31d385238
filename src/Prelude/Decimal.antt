-- ===== src/Prelude/Decimal.antt =====
-- `{}` of an integer: its decimal digits, and what they determine.
use Prim.Native.Nat.{ℕ, zero, suc, ◌+◌, ◌-◌, ◌*◌, ◌/◌, ◌%◌, ◌<◌}
use mathlib.Core.Path.{◌≡◌, ap, sym, ◌∙◌}
use mathlib.Core.Logic.{inl, inr}
use mathlib.Core.Bool.{false}
use mathlib.Core.Option.{some}
use mathlib.Core.List.{[], ◌∷◌, ◌++◌}
use native.Mathlib.Omega.{arith}
use blitzpool_rental_proxy.Prelude.Tests.{ltb, nat_beq, if◌then◌else◌, Bool-cases}
use blitzpool_rental_proxy.Prelude.Equality.{Text}
use blitzpool_rental_proxy.Prelude.Int.{ℤ, pos, negsuc}
use blitzpool_rental_proxy.Prelude.Strings.{split_once}

-- The digits of `n` in front of `acc`; `n + 1` rounds are enough.
print_from : ℕ → ℕ → Text → Text
print_from zero n acc = acc
print_from (suc rounds) n acc =
    let rest = print_from rounds (n / 10) ((n % 10 + b'0') ∷ acc) in
    if ltb n 10 then (n + b'0') ∷ acc else rest

unfoldable pub print : ℕ → Text
unfolding print_from
print n = print_from (suc n) n []

unfoldable pub print_ℤ : ℤ → Text
unfolding print
print_ℤ (pos n) = print n
print_ℤ (negsuc n) = b'-' ∷ print (suc n)

-- The decimal value of `acc` followed by the digits of the text.
abbrev pub decimal_value : ℕ → Text → ℕ
decimal_value acc [] = acc
decimal_value acc (c ∷ s) = decimal_value (acc * 10 + (c - b'0')) s

decimal_value-print_from :
    (rounds n : ℕ) (acc : Text)
    → n < rounds
    → decimal_value 0 (print_from rounds n acc) ≡ decimal_value n acc
unfolding print_from
decimal_value-print_from zero n acc h = elim h [ ]
decimal_value-print_from (suc rounds) n acc h = elim (Bool-cases (ltb n 10)) [
  | inl small ↦ rw small (ap (λ k. decimal_value k acc) (omega arith))
  | inr large ↦ rw large (
      decimal_value-print_from rounds (n / 10) ((n % 10 + b'0') ∷ acc) (ground arith)
      ∙ ap (λ k. decimal_value k acc) (omega arith))
]

pub decimal_value-print : (n : ℕ) → decimal_value 0 (print n) ≡ n
unfolding print
decimal_value-print n = decimal_value-print_from (suc n) n [] (omega arith)

-- Two numbers with one text are one number.
pub print-injective : (m n : ℕ) → print m ≡ print n → m ≡ n
print-injective m n e = sym (decimal_value-print m) ∙ ap (decimal_value 0) e ∙ decimal_value-print n

-- No digit is the separator `c`.
abbrev Lacks : ℕ → Text → Type 0
Lacks c [] = Unit {0}
Lacks c (d ∷ s) = (nat_beq d c ≡ false) × Lacks c s

print_from-Lacks :
    (rounds n : ℕ) (acc : Text) → Lacks b'-' acc → Lacks b'-' (print_from rounds n acc)
unfolding print_from
print_from-Lacks zero n acc h = h
print_from-Lacks (suc rounds) n acc h = elim (Bool-cases (ltb n 10)) [
  | inl small ↦ rw small (ground arith, h)
  | inr large ↦
      rw large (print_from-Lacks rounds (n / 10) ((n % 10 + b'0') ∷ acc) (ground arith, h))
]

split_once-append : (c : ℕ) (s t : Text) → Lacks c s → split_once c (s ++ c ∷ t) ≡ some (s, t)
unfolding split_once
split_once-append c [] t h = ground arith
split_once-append c (d ∷ s) t h = rw (h.0, split_once) (ground (arith, split_once-append c s t h.1))

pub split_once-print :
    (n : ℕ) (t : Text) → split_once b'-' (print n ++ b'-' ∷ t) ≡ some (print n, t)
unfolding print
split_once-print n t = split_once-append b'-' (print n) t (print_from-Lacks (suc n) n [] tt)
