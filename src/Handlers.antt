-- ===== src/Handlers.antt =====
-- apps/server/src/services/handlers.ts over the store of apps/server/src/store/sharepaste-store.ts.
pub mod Errors
pub mod Items
pub mod Unary
pub mod Stream
