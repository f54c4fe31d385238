-- ===== src/Session/PoolUrl/Accepts/Port.antt =====
-- The texts that parse as a `u16`, and their values.
use blitzpool_rental_proxy.Prelude.{
  Text, ℕ, ◌+◌, ◌-◌, ◌*◌, ◌<◌, ◌≤◌, ◌≡◌, refl, ◌≢◌, ◌⊎◌, inl, inr, true, some, [], ◌∷◌, arith,
  Bool-cases, nat_beq,
}
use blitzpool_rental_proxy.Prelude.Strings.{is_digit, parse_digits, parse_u16}

abbrev pub AllDigits : Text → Type 0
AllDigits [] = Unit
AllDigits (c ∷ s) = (is_digit c ≡ true) × AllDigits s

-- The decimal value of `acc` followed by the digits of the text.
abbrev pub decimal_value : ℕ → Text → ℕ
decimal_value acc [] = acc
decimal_value acc (c ∷ s) = decimal_value (acc * 10 + (c - b'0')) s

-- The text is a decimal number `n` below 2^16, with or without a `+` before it.
pub record Denotes (s : Text) (n : ℕ) : Type 0 where
  pub digits : Text
  pub shape : (s ≡ digits) ⊎ (s ≡ b'+' ∷ digits)
  pub not_empty : digits ≢ []
  pub all_digits : AllDigits digits
  pub value : decimal_value 0 digits ≡ n
  pub bounded : n < 65_536

parse_digits_sound :
    (acc : ℕ) (s : Text) (n : ℕ)
    → parse_digits acc s ≡ some n
    → acc < 65_536
    → AllDigits s × (decimal_value acc s ≡ n) × (n < 65_536)
unfolding parse_digits
parse_digits_sound acc [] n e h = ground arith
parse_digits_sound acc (c ∷ s) n e h =
    ground (arith, parse_digits_sound (acc * 10 + (c - b'0')) s n)

le-decimal_value : (acc : ℕ) (s : Text) → acc ≤ decimal_value acc s
le-decimal_value acc [] = omega arith
le-decimal_value acc (c ∷ s) = omega (arith, le-decimal_value (acc * 10 + (c - b'0')) s)

parse_digits_complete :
    (acc : ℕ) (s : Text)
    → AllDigits s
    → decimal_value acc s < 65_536
    → parse_digits acc s ≡ some (decimal_value acc s)
unfolding parse_digits
parse_digits_complete acc [] h b = refl
parse_digits_complete acc (c ∷ s) h b =
    let value = acc * 10 + (c - b'0') in
    ground (arith, parse_digits_complete value s h.1 b, le-decimal_value value s)

pub parse_u16-Denotes : (s : Text) (n : ℕ) → parse_u16 s ≡ some n → Denotes s n
unfolding parse_u16
parse_u16-Denotes [] n e = ground arith
parse_u16-Denotes (c ∷ []) n e =
    let (ds, v, b) = parse_digits_sound 0 (c ∷ []) n e (omega arith) in
    record {
      digits = c ∷ [];
      shape = inl refl;
      not_empty = ground arith;
      all_digits = ds;
      value = v;
      bounded = b;
    }
parse_u16-Denotes (c ∷ d ∷ s) n e = elim (Bool-cases (nat_beq c b'+')) [
  | inl plus ↦
      let (ds, v, b) = parse_digits_sound 0 (d ∷ s) n (rw plus at e) (omega arith) in
      record {
        digits = d ∷ s;
        shape = inr (ground arith);
        not_empty = ground arith;
        all_digits = ds;
        value = v;
        bounded = b;
      }
  | inr no_plus ↦
      let (ds, v, b) = parse_digits_sound 0 (c ∷ d ∷ s) n (rw no_plus at e) (omega arith) in
      record {
        digits = c ∷ d ∷ s;
        shape = inl refl;
        not_empty = ground arith;
        all_digits = ds;
        value = v;
        bounded = b;
      }
]

plain : (s : Text) → s ≢ [] → AllDigits s → parse_u16 s ≡ parse_digits 0 s
unfolding parse_u16 is_digit
plain [] h ds = absurd (h refl)
plain (c ∷ []) h ds = refl
plain (c ∷ d ∷ s) h ds = ground arith

plus : (s : Text) → s ≢ [] → parse_u16 (b'+' ∷ s) ≡ parse_digits 0 s
unfolding parse_u16
plus [] h = absurd (h refl)
plus (d ∷ s) h = refl

pub Denotes-parse_u16 : (s : Text) (n : ℕ) → Denotes s n → parse_u16 s ≡ some n
Denotes-parse_u16 s n d =
    let parsed =
      parse_digits_complete 0 d.digits d.all_digits (omega (arith, d.value, d.bounded)) in
    elim d.shape [
      | inl e ↦ rw (e, plain d.digits d.not_empty d.all_digits, parsed, d.value)
      | inr e ↦ rw (e, plus d.digits d.not_empty, parsed, d.value)
    ]
