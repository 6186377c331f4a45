-- ===== src/Client.antt =====
-- The client: packages/client-core/src and apps/client-cli/src.
pub mod Types
pub mod PolicyEngine
pub mod SyncEngine
pub mod History
pub mod Session
pub mod Watcher
pub mod Incoming
pub mod StateFile
pub mod Task
pub mod Ports
pub mod SharePaste
pub mod Bridge
pub mod Crypto
pub mod Grpc
