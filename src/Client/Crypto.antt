-- ===== src/Client/Crypto.antt =====
-- The crypto agent (packages/client-core/src/core/crypto-agent.ts).
pub mod Node
pub mod Agent
pub mod RoundTrips
pub mod Binary
pub mod Invocations
pub mod Interop
pub mod Fallbacks
