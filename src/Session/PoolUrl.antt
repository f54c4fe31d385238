-- ===== src/Session/PoolUrl.antt =====
-- src/session.rs, `normalize_pool_url`: a pool address as people type it becomes the `host:port`
-- that the relays connect with, or is refused.
pub mod Accepts
use blitzpool_rental_proxy.Prelude.{
  refl, ◌≡◌, Text, Bool, true, false, ◌||◌, not, Option, none, some, List, [], ◌∷◌, if◌then◌else◌,
  Result, ok, err, is_some,
}
use blitzpool_rental_proxy.Prelude.Strings.{
  codes, trim, strip_ignore_ascii_case, contains_text, contains_char, rsplit_once, parse_u16,
}

-- The three messages that refuse an address.
pub data UrlError : Type 0 where
  only_plain_tcp : UrlError
  needs_host_port : UrlError
  not_host_port : UrlError

-- The plain-TCP schemes, tried in this order; an address with neither stays as it is.
unfoldable pub strip_scheme : Text → Text
unfolding strip_ignore_ascii_case
strip_scheme s = elim (strip_ignore_ascii_case (codes "stratum+tcp://") s) [
  | some rest ↦ rest
  | none ↦ elim (strip_ignore_ascii_case (codes "tcp://") s) [ some rest ↦ rest | none ↦ s ]
]

abbrev is_empty : Text → Bool
is_empty [] = true
is_empty (c ∷ s) = false

-- The last test, on the two sides of the last colon.
unfoldable pub check_host_port : Text → Option (Text × Text) → Result UrlError Text
check_host_port s none = err needs_host_port
check_host_port s (some (host, port)) =
    if is_empty host || contains_char b'/' host || not (is_some (parse_u16 port))
    then err not_host_port
    else ok s

unfoldable pub normalize_pool_url : Text → Result UrlError Text
unfolding strip_scheme check_host_port contains_text rsplit_once
normalize_pool_url raw =
    let s = strip_scheme (trim raw) in
    if contains_text (codes "://") s
    then err only_plain_tcp
    else check_host_port s (rsplit_once b':' s)
