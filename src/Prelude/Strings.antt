-- ===== src/Prelude/Strings.antt =====
-- Texts as lists of code points: literals and the standard library's functions that the source calls.
use Prim.Native.Char.{code}
use Prim.Native.String.{String}
use Prim.Native.Nat.{ℕ, ◌+◌, ◌-◌, ◌*◌}
use mathlib.Core.Bool.{Bool, true, false, ◌&&◌, ◌||◌}
use mathlib.Core.Option.{Option, none, some}
use mathlib.Core.List.{[], ◌∷◌, reverse}
use blitzpool_rental_proxy.Prelude.Tests.{leb, nat_beq, if◌then◌else◌}
use blitzpool_rental_proxy.Prelude.Equality.{Text}

-- A text literal.
abbrev pub codes : String → Text
codes String.[] = []
codes (String.◌∷◌ c s) = code c ∷ codes s

-- char::is_whitespace, the Unicode property White_Space.
unfoldable pub is_whitespace : ℕ → Bool
is_whitespace c =
    (leb 9 c && leb c 13)
    || nat_beq c 32
    || nat_beq c 0x85
    || nat_beq c 0xa0
    || nat_beq c 0x1680
    || (leb 0x2000 c && leb c 0x200a)
    || nat_beq c 0x2028
    || nat_beq c 0x2029
    || nat_beq c 0x202f
    || nat_beq c 0x205f
    || nat_beq c 0x3000

-- str::trim_start
unfoldable pub trim_start : Text → Text
unfolding is_whitespace
trim_start [] = []
trim_start (c ∷ s) = let rest = trim_start s in if is_whitespace c then rest else c ∷ s

-- str::trim
unfoldable pub trim : Text → Text
unfolding trim_start
trim s = reverse (trim_start (reverse (trim_start s)))

-- u8::to_ascii_lowercase
unfoldable pub to_ascii_lowercase : ℕ → ℕ
to_ascii_lowercase c = if leb b'A' c && leb c b'Z' then c + 32 else c

-- The text behind the prefix `p`, compared by `eq_ignore_ascii_case`.
unfoldable pub strip_ignore_ascii_case : Text → Text → Option Text
unfolding to_ascii_lowercase
strip_ignore_ascii_case [] s = some s
strip_ignore_ascii_case (p ∷ ps) [] = none
strip_ignore_ascii_case (p ∷ ps) (c ∷ s) =
    if nat_beq (to_ascii_lowercase p) (to_ascii_lowercase c)
    then strip_ignore_ascii_case ps s
    else none

-- str::starts_with
unfoldable pub starts_with : Text → Text → Bool
starts_with [] s = true
starts_with (p ∷ ps) [] = false
starts_with (p ∷ ps) (c ∷ s) = nat_beq p c && starts_with ps s

-- str::contains of a text
unfoldable pub contains_text : Text → Text → Bool
unfolding starts_with
contains_text p [] = starts_with p []
contains_text p (c ∷ s) = starts_with p (c ∷ s) || contains_text p s

-- str::contains of a char
unfoldable pub contains_char : ℕ → Text → Bool
contains_char a [] = false
contains_char a (c ∷ s) = nat_beq a c || contains_char a s

-- str::rsplit_once of a char: split at its last place.
unfoldable pub rsplit_once : ℕ → Text → Option (Text × Text)
rsplit_once a [] = none
rsplit_once a (c ∷ s) = elim (rsplit_once a s) [
  | some (h, t) ↦ some (c ∷ h, t)
  | none ↦ if nat_beq c a then some ([], s) else none
]

-- str::split_once of a char: split at its first place.
unfoldable pub split_once : ℕ → Text → Option (Text × Text)
split_once a [] = none
split_once a (c ∷ s) = elim (nat_beq c a) [
  | true ↦ some ([], s)
  | false ↦ elim (split_once a s) [ some (h, t) ↦ some (c ∷ h, t) | none ↦ none ]
]

unfoldable pub is_digit : ℕ → Bool
is_digit c = leb b'0' c && leb c b'9'

-- The digits of a `u16`, with the test for overflow at each of them.
unfoldable pub parse_digits : ℕ → Text → Option ℕ
unfolding is_digit
parse_digits acc [] = some acc
parse_digits acc (c ∷ s) =
    let value = acc * 10 + (c - b'0') in
    let rest = parse_digits value s in if is_digit c && leb value 65_535 then rest else none

-- str::parse::<u16>: one leading `+` is allowed, and at least one digit is wanted.
unfoldable pub parse_u16 : Text → Option ℕ
unfolding parse_digits
parse_u16 [] = none
parse_u16 (c ∷ []) = parse_digits 0 (c ∷ [])
parse_u16 (c ∷ d ∷ s) =
    if nat_beq c b'+' then parse_digits 0 (d ∷ s) else parse_digits 0 (c ∷ d ∷ s)
