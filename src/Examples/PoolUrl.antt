-- ===== src/Examples/PoolUrl.antt =====
-- Tests of Session/PoolUrl.antt, after the tests in src/session.rs.
use blitzpool_rental_proxy.Prelude.{◌≡◌, refl, ok, err}
use blitzpool_rental_proxy.Prelude.Strings.{codes, trim, contains_char, parse_u16}
use blitzpool_rental_proxy.Session.PoolUrl.{
  normalize_pool_url, not_host_port, only_plain_tcp, needs_host_port,
}

scheme_stripped : normalize_pool_url (codes " TCP://pool:3333 ") ≡ ok (codes "pool:3333")
unfolding normalize_pool_url trim contains_char parse_u16
scheme_stripped = refl

port_out_of_range : normalize_pool_url (codes "pool:99999") ≡ err not_host_port
unfolding normalize_pool_url trim contains_char parse_u16
port_out_of_range = refl

other_transport : normalize_pool_url (codes "stratum+ssl://pool:3333") ≡ err only_plain_tcp
unfolding normalize_pool_url trim contains_char parse_u16
other_transport = refl

no_port : normalize_pool_url (codes "pool") ≡ err needs_host_port
unfolding normalize_pool_url trim contains_char parse_u16
no_port = refl
