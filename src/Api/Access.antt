-- ===== src/Api/Access.antt =====
-- src/api.rs, `require_bearer` and `ct_eq`: who may use the control API. The strings are their UTF-8
-- bytes; a header that reads as a text is ASCII.
pub mod Equal
use blitzpool_rental_proxy.Prelude.{
  Text, ℕ, zero, suc, ◌+◌, ◌*◌, ◌/◌, ◌%◌, Bool, true, false, Option, none, some, List, [], ◌∷◌, ok,
  err, Result, nat_beq, length, if◌then◌else◌,
}
use blitzpool_rental_proxy.Prelude.Strings.{codes, trim}

pub data AccessError : Type 0 where
  -- 503
  not_configured : AccessError
  -- 401
  unauthorized : AccessError

-- `^` and `|` of integers of so many bits.
unfoldable pub bit_xor : ℕ → ℕ → ℕ → ℕ
bit_xor zero a b = 0
bit_xor (suc width) a b = bit_xor width (a / 2) (b / 2) * 2 + (a % 2 + b % 2) % 2

unfoldable pub bit_or : ℕ → ℕ → ℕ → ℕ
bit_or zero a b = 0
bit_or (suc width) a b =
    bit_or width (a / 2) (b / 2) * 2 + (if nat_beq (a % 2 + b % 2) 0 then 0 else 1)

-- The loop over both strings.
unfoldable pub differing : ℕ → List ℕ → List ℕ → ℕ
unfolding bit_xor bit_or
differing diff (x ∷ a) (y ∷ b) = differing (bit_or 8 diff (bit_xor 8 x y)) a b
differing diff [] b = diff
differing diff (x ∷ a) [] = diff

unfoldable pub ct_eq : List ℕ → List ℕ → Bool
unfolding differing
ct_eq a b = if nat_beq (length a) (length b) then nat_beq (differing 0 a b) 0 else false

-- str::strip_prefix
unfoldable pub strip_prefix : Text → Text → Option Text
strip_prefix [] s = some s
strip_prefix (c ∷ p) [] = none
strip_prefix (c ∷ p) (d ∷ s) = let rest = strip_prefix p s in if nat_beq c d then rest else none

-- `.map(str::trim).unwrap_or("")`
abbrev pub credential : Option Text → Text
credential none = []
credential (some rest) = trim rest

-- What the request's Authorization header presents.
unfoldable pub presented : Option Text → Text
unfolding strip_prefix
presented none = []
presented (some header) = credential (strip_prefix (codes "Bearer ") header)

-- The configured token and the header; a request that is let through goes on to its handler.
unfoldable pub require_bearer : Text → Option Text → Result AccessError (Unit {0})
unfolding ct_eq presented
require_bearer [] header = err not_configured
require_bearer (c ∷ token) header =
    if ct_eq (presented header) (c ∷ token) then ok tt else err unauthorized
