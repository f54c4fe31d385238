-- ===== src/Examples.antt =====
-- Tests of the definitions, and the theorems at concrete inputs.
mod Access
mod Data
mod Rig
mod PoolUrl
mod Pools
mod Rentals
mod Pooled
mod Requests
mod Sessions
mod Supervision
mod Translation
