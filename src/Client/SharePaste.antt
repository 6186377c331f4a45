-- ===== src/Client/SharePaste.antt =====
-- The class `SharePasteClient` (apps/client-cli/src/core/sharepaste-client.ts) over its ports.
pub mod Keys
pub mod Items
pub mod Bootstrap
pub mod Requests
pub mod Realtime
pub mod Coherence
pub mod Losses
pub mod Refusals
pub mod StartingOver
pub mod Rotations
pub mod Repeats
pub mod Connections
