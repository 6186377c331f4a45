-- ===== src/Store.antt =====
-- apps/server/src/store/sharepaste-store.ts
pub mod Common
pub mod Devices
pub mod Pairing
pub mod PolicyUpdates
pub mod Clipboard
pub mod Calls
pub mod Snapshot
pub mod Sound
pub mod Keeps
pub mod Behaviour
