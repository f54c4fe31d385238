-- ===== src/Api/Access/Equal.antt =====
-- src/api.rs, `ct_eq` against equality, and who `require_bearer` lets through.
use blitzpool_rental_proxy.Prelude.{
  Text, ℕ, zero, suc, ◌/◌, ◌<◌, ◌≡◌, ◌↔◌, ◌≢◌, refl, sym, ap, ap₂, ◌∙◌, subst, true, Option, none,
  some, List, [], ◌∷◌, ◌++◌, ok, nat_beq, nat_beq_iff, length, arith, Bool-cases, inl, inr,
}
use blitzpool_rental_proxy.Prelude.Strings.{codes, trim}
use blitzpool_rental_proxy.Api.Access.{
  bit_xor, bit_or, differing, ct_eq, strip_prefix, presented, credential, require_bearer,
}

-- `a` is an integer of so many bits.
abbrev Fits : ℕ → ℕ → Type 0
Fits zero a = a ≡ 0
Fits (suc width) a = Fits width (a / 2)

abbrev pub Bytes : List ℕ → Type 0
Bytes [] = Unit {0}
Bytes (c ∷ s) = (c < 256) × Bytes s

byte-Fits : (a : ℕ) → a < 256 → Fits 8 a
byte-Fits a h = omega (arith, h)

bit_xor-zero : (w a b : ℕ) → Fits w a → Fits w b → bit_xor w a b ≡ 0 → a ≡ b
unfolding bit_xor
bit_xor-zero zero a b p q e = p ∙ sym q
bit_xor-zero (suc w) a b p q e =
    let high = bit_xor-zero w (a / 2) (b / 2) p q (omega (arith, e)) in omega (arith, e, high)

bit_xor_self : (w a : ℕ) → bit_xor w a a ≡ 0
unfolding bit_xor
bit_xor_self zero a = refl
bit_xor_self (suc w) a = rw (bit_xor_self w (a / 2)) (omega arith)

bit_xor-Fits : (w a b : ℕ) → Fits w (bit_xor w a b)
unfolding bit_xor
bit_xor-Fits zero a b = refl
bit_xor-Fits (suc w) a b = subst (Fits w) (omega arith) (bit_xor-Fits w (a / 2) (b / 2))

bit_or-Fits : (w a b : ℕ) → Fits w (bit_or w a b)
unfolding bit_or
bit_or-Fits zero a b = refl
bit_or-Fits (suc w) a b = subst (Fits w) (ground arith) (bit_or-Fits w (a / 2) (b / 2))

bit_or-zero : (w a b : ℕ) → Fits w a → Fits w b → bit_or w a b ≡ 0 → (a ≡ 0) × (b ≡ 0)
unfolding bit_or
bit_or-zero zero a b p q e = (p, q)
bit_or-zero (suc w) a b p q e =
    let (high_a, high_b) = bit_or-zero w (a / 2) (b / 2) p q (ground arith) in
    (ground arith, ground arith)

bit_or-none : (w : ℕ) → bit_or w 0 0 ≡ 0
unfolding bit_or
bit_or-none zero = refl
bit_or-none (suc w) = rw (bit_or-none w) refl

differing-zero :
    (diff : ℕ) (a b : List ℕ)
    → Fits 8 diff
    → Bytes a
    → Bytes b
    → length a ≡ length b
    → differing diff a b ≡ 0
    → (diff ≡ 0) × (a ≡ b)
unfolding differing
differing-zero diff [] [] fits p q len e = (e, refl)
differing-zero diff [] (y ∷ b) fits p q len e = ground (arith, len)
differing-zero diff (x ∷ a) [] fits p q len e = ground (arith, len)
differing-zero diff (x ∷ a) (y ∷ b) fits p q len e =
    let (or, tail) =
      differing-zero (bit_or 8 diff (bit_xor 8 x y)) a b (bit_or-Fits 8 diff (bit_xor 8 x y)) p.1
        q.1 (omega (arith, len)) e in
    let (none_before, same) = bit_or-zero 8 diff (bit_xor 8 x y) fits (bit_xor-Fits 8 x y) or in
    (
      none_before,
      ap₂ (λ c s. c ∷ s) (bit_xor-zero 8 x y (byte-Fits x p.0) (byte-Fits y q.0) same) tail,
    )

differing_self : (a : List ℕ) → differing 0 a a ≡ 0
unfolding differing
differing_self [] = refl
differing_self (x ∷ a) = rw (bit_xor_self 8 x, bit_or-none 8) (differing_self a)

ct_eq_iff : (a b : List ℕ) → Bytes a → Bytes b → (ct_eq a b ≡ true) ↔ (a ≡ b)
unfolding ct_eq
ct_eq_iff a b p q =
    (sound, λ e. rw (e, (nat_beq_iff (length b) (length b)).1 refl, differing_self b) refl)
  where
    sound : ct_eq a b ≡ true → a ≡ b
    sound e = elim (Bool-cases (nat_beq (length a) (length b))) [
      | inl same ↦
          (differing-zero 0 a b refl p q ((nat_beq_iff (length a) (length b)).0 same)
            (ground (arith, same, e))).1
      | inr other ↦ ground (arith, other, e)
    ]

strip_prefix-append : (p s : Text) → strip_prefix p (p ++ s) ≡ some s
unfolding strip_prefix
strip_prefix-append [] s = refl
strip_prefix-append (c ∷ p) s = rw ((nat_beq_iff c c).1 refl) (strip_prefix-append p s)

strip_prefix-some : (p s rest : Text) → strip_prefix p s ≡ some rest → s ≡ p ++ rest
unfolding strip_prefix
strip_prefix-some [] s rest e = cc
strip_prefix-some (c ∷ p) [] rest e = cc
strip_prefix-some (c ∷ p) (d ∷ s) rest e = elim (Bool-cases (nat_beq c d)) [
  | inl same ↦
      ap₂ (λ x t. x ∷ t) (sym ((nat_beq_iff c d).0 same))
        (strip_prefix-some p s rest (ground (arith, same, e)))
  | inr other ↦ ground (arith, other, e)
]

-- The header is `Bearer`, a space and the token, with what white space around it.
abbrev pub Presents : Text → Option Text → Type 0
Presents token header =
    (rest : Text) × (header ≡ some (codes "Bearer " ++ rest)) × (trim rest ≡ token)

carried :
    (header rest : Text) {token : Text}
    → some header ≡ some (codes "Bearer " ++ rest)
    → trim rest ≡ token
    → presented (some header) ≡ token
unfolding presented
carried header rest e t =
    let strip = strip_prefix-append (codes "Bearer ") rest in
    let same : header ≡ codes "Bearer " ++ rest = cc e in
    ap (λ s. credential (strip_prefix (codes "Bearer ") s)) same ∙ ap credential strip ∙ t

presented-Presents :
    (c : ℕ) (token : Text) (header : Option Text)
    → (presented header ≡ c ∷ token) ↔ Presents (c ∷ token) header
unfolding presented
presented-Presents c token none = (λ e. cc, λ h. let (rest, e, t) = h in cc e)
presented-Presents c token (some header) = (sound, complete)
  where
    stripped :
        (s : Option Text)
        → strip_prefix (codes "Bearer ") header ≡ s
        → credential s ≡ c ∷ token
        → Presents (c ∷ token) (some header)
    stripped none e h = cc (h)
    stripped (some rest) e h =
        (rest, ap some (strip_prefix-some (codes "Bearer ") header rest e), h)

    sound : presented (some header) ≡ c ∷ token → Presents (c ∷ token) (some header)
    sound h = stripped (strip_prefix (codes "Bearer ") header) refl h

    complete : Presents (c ∷ token) (some header) → presented (some header) ≡ c ∷ token
    complete (rest, e, t) = carried header rest e t

-- For a token and a presented text that are bytes, a request is let through exactly if a token is
-- configured and the header is `Bearer`, a space and a text that is the token once it is trimmed.
pub require_bearer-Presents :
    (token : Text) (header : Option Text)
    → Bytes token
    → Bytes (presented header)
    → (require_bearer token header ≡ ok tt) ↔ ((token ≢ []) × Presents token header)
unfolding require_bearer
require_bearer-Presents [] header p q = (λ e. cc, λ h. elim (h.0 refl) [ ])
require_bearer-Presents (c ∷ token) header p q = (sound, complete)
  where
    equal : (ct_eq (presented header) (c ∷ token) ≡ true) ↔ (presented header ≡ c ∷ token)
    equal = ct_eq_iff (presented header) (c ∷ token) q p

    sound :
        require_bearer (c ∷ token) header ≡ ok tt → ((c ∷ token) ≢ []) × Presents (c ∷ token) header
    sound e = (λ h. cc, (presented-Presents c token header).0 (equal.0 (ground (arith, e))))

    complete :
        ((c ∷ token) ≢ []) × Presents (c ∷ token) header → require_bearer (c ∷ token) header ≡ ok tt
    complete (h, shown) = rw (equal.1 ((presented-Presents c token header).1 shown)) refl
