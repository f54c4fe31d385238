-- ===== src/Detect.antt =====
-- src/proto/detect.rs and src/config.rs, `Protocol`: which protocol a connection or a setting means.
use blitzpool_rental_proxy.Prelude.{
  Text, ℕ, ◌||◌, Option, none, some, map, nat_beq, if◌then◌else◌, ◌==◌, text_eq,
}
use blitzpool_rental_proxy.Prelude.Strings.{codes, trim, to_ascii_lowercase}

pub data Protocol : Type 0 where
  sv1 : Protocol
  sv2 : Protocol
  both : Protocol

-- A connection on the shared port, by its first byte.
unfoldable pub detect : ℕ → Protocol
detect b = if nat_beq b b'{' || nat_beq b 0x20 || nat_beq b 0x0a || nat_beq b 0x0d then sv1 else sv2

-- RENTAL_PROXY_PROTOCOL
unfoldable pub parse : Text → Option Protocol
parse s =
    let word = map to_ascii_lowercase (trim s) in
    if word == codes "sv1" || word == codes "v1" || word == codes "1" || word == codes "stratum1"
    then some sv1
    else if word == codes "sv2"
        || word == codes "v2"
        || word == codes "2"
        || word == codes "stratum2"
    then some sv2
    else if word == codes "both" || word == codes "sv1+sv2" || word == codes "all"
    then some both
    else none
