-- ===== src/Session/PoolUrl/Accepts.antt =====
-- src/session.rs, `normalize_pool_url`: which addresses pass, described without the parser.
mod Port
use blitzpool_rental_proxy.Prelude.{
  Text, ℕ, ◌≡◌, refl, ◌≢◌, ◌↔◌, ◌⊎◌, inl, inr, Bool, true, false, not, ◌||◌, Option, none, some,
  List, [], ◌∷◌, ◌++◌, arith, nat_beq, nat_beq_iff, Bool-cases, Option-cases, is_some, ok, err,
  if◌then◌else◌, ap, ◌∙◌, sym, subst,
}
use blitzpool_rental_proxy.Prelude.Strings.{
  codes, trim, contains_text, contains_char, rsplit_once, parse_u16,
}
use blitzpool_rental_proxy.Session.PoolUrl.{
  only_plain_tcp, strip_scheme, check_host_port, normalize_pool_url,
}
pub use Port.{Denotes, parse_u16-Denotes, Denotes-parse_u16}

-- A port is a decimal number below 2^16, which one `+` may precede.
abbrev pub IsPort : Text → Type 0
IsPort port = (n : ℕ) × Denotes port n

-- `host:port`, split at the last colon.
pub record IsHostPort (v : Text) : Type 0 where
  pub host : Text
  pub port : Text
  pub joined : v ≡ host ++ b':' ∷ port
  pub host_not_empty : host ≢ []
  pub host_no_slash : contains_char b'/' host ≡ false
  pub port_no_colon : contains_char b':' port ≡ false
  pub is_port : IsPort port

-- A text splits at its last colon, or has none.
abbrev Split : ℕ → Text → Option (Text × Text) → Type 0
Split a s none = contains_char a s ≡ false
Split a s (some (h, t)) = (s ≡ h ++ a ∷ t) × (contains_char a t ≡ false)

Split-next :
    (a c : ℕ) (s : Text) (r : Option (Text × Text))
    → Split a s r
    → Split a (c ∷ s) (elim r [
      | some (h, t) ↦ some (c ∷ h, t)
      | none ↦ if nat_beq c a then some ([], s) else none
    ])
unfolding contains_char
Split-next a c s none k = elim (Bool-cases (nat_beq c a)) [
  | inl e ↦ rw e (ap (λ x. x ∷ s) ((nat_beq_iff c a).0 e), k)
  | inr e ↦ rw e (ground arith)
]
Split-next a c s (some (h, t)) k = (ap (λ x. c ∷ x) k.0, k.1)

rsplit_once-Split : (a : ℕ) (s : Text) → Split a s (rsplit_once a s)
unfolding rsplit_once contains_char
rsplit_once-Split a [] = refl
rsplit_once-Split a (c ∷ s) = Split-next a c s (rsplit_once a s) (rsplit_once-Split a s)

rsplit_once-none : (a : ℕ) (s : Text) → contains_char a s ≡ false → rsplit_once a s ≡ none
unfolding rsplit_once contains_char
rsplit_once-none a [] h = refl
rsplit_once-none a (c ∷ s) h = rw (rsplit_once-none a s (ground arith)) (ground arith)

rsplit_once-append :
    (a : ℕ) (h t : Text) → contains_char a t ≡ false → rsplit_once a (h ++ a ∷ t) ≡ some (h, t)
unfolding rsplit_once
rsplit_once-append a [] t k = rw (rsplit_once-none a t k) (ground arith)
rsplit_once-append a (c ∷ h) t k = rw (rsplit_once-append a h t k)

is_some-true {ℓ} : {A : Type ℓ} (o : Option A) → is_some o ≡ true → (a : A) × (o ≡ some a)
is_some-true none h = cc
is_some-true (some a) h = (a, refl)

check_host_port_sound :
    (s : Text) (r : Option (Text × Text)) {v : Text}
    → Split b':' s r
    → check_host_port s r ≡ ok v
    → (s ≡ v) × IsHostPort s
unfolding check_host_port
check_host_port_sound s none k e = cc
check_host_port_sound s (some (host, port)) k e =
    let (n, parsed) = is_some-true (parse_u16 port) (ground arith) in
    (
      ground arith,
      record {
        host = host;
        port = port;
        joined = k.0;
        host_not_empty = ground arith;
        host_no_slash = ground arith;
        port_no_colon = k.1;
        is_port = (n, parse_u16-Denotes port n parsed);
      },
    )

-- The three tests of the last step pass.
check_host_port-some :
    (s host port : Text) (n : ℕ)
    → host ≢ []
    → contains_char b'/' host ≡ false
    → parse_u16 port ≡ some n
    → check_host_port s (some (host, port)) ≡ ok s
unfolding check_host_port
check_host_port-some s [] port n h k e = absurd (h refl)
check_host_port-some s (c ∷ host) port n h k e = rw (k, e)

check_host_port_complete : (s : Text) → IsHostPort s → check_host_port s (rsplit_once b':' s) ≡ ok s
check_host_port_complete s v =
    let split =
      ap (rsplit_once b':') v.joined ∙ rsplit_once-append b':' v.host v.port v.port_no_colon in
    let parsed = Denotes-parse_u16 v.port v.is_port.0 v.is_port.1 in
    rw split
      (check_host_port-some s v.host v.port v.is_port.0 v.host_not_empty v.host_no_slash parsed)

step :
    (raw : Text)
    → let s = strip_scheme (trim raw) in
      normalize_pool_url raw ≡ (
        if contains_text (codes "://") s
        then err only_plain_tcp
        else check_host_port s (rsplit_once b':' s))
unfolding normalize_pool_url
step raw = refl

-- An address passes exactly when, trimmed and without its plain-TCP scheme, it is a host and a port
-- and holds no `://`; what it becomes is that text.
pub normalize_pool_url-accepts :
    (raw v : Text)
    → (normalize_pool_url raw ≡ ok v)
      ↔ ((strip_scheme (trim raw) ≡ v) × IsHostPort v × (contains_text (codes "://") v ≡ false))
normalize_pool_url-accepts raw v = (
  λ e. sound (contains_text (codes "://") (strip_scheme (trim raw))) refl (sym (step raw) ∙ e),
  λ (same, routable, plain). step raw ∙ rw (same, plain) (check_host_port_complete v routable),
)
  where
    s : Text
    s = strip_scheme (trim raw)

    sound :
        (b : Bool)
        → contains_text (codes "://") s ≡ b
        → (if b then err only_plain_tcp else check_host_port s (rsplit_once b':' s)) ≡ ok v
        → (s ≡ v) × IsHostPort v × (contains_text (codes "://") v ≡ false)
    sound true h e = cc
    sound false h e =
        let (same, routable) = check_host_port_sound s _ (rsplit_once-Split b':' s) e in
        (same, subst IsHostPort same routable, rw same at h)
