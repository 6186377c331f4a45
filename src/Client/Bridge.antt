-- ===== src/Client/Bridge.antt =====
-- The runtime bridge (apps/client-cli/src/runtime): requests of a host program, served by a client.
pub mod Options
pub mod Params
pub mod Handlers
pub mod Dispatch
pub mod Coherence
