-- ===== src/Api.antt =====
-- src/api.rs: the requests that change what the proxy does, the bearer token and the chart of a rig.
-- A request takes the state, whether the statements of the database are answered, and the time, and
-- returns the answer and the new state. The live sessions are seen through what a request reads of them.
pub mod Access
pub mod History
pub mod Requests
pub mod Accepted
pub mod Frozen
