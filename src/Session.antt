-- ===== src/Session.antt =====
-- src/session.rs: where a session's hashrate goes. The pool address rule and the hashrate window
-- are the modules below.
pub mod PoolUrl
pub mod Window
use blitzpool_rental_proxy.Prelude.{Option, Text}

-- A pool that the proxy connects to as a client.
pub record UpstreamTarget : Type 0 where
  pub url : Text
  pub user : Text
  pub password : Text
  pub authority_pubkey : Option Text

-- `idle` is the seller's own pool; a rental keeps the id of its order.
pub data Routing : Type 0 where
  idle : Routing
  rented : Text → Routing
