-- ===== src/Client/Grpc.antt =====
-- The gRPC client (apps/client-cli/src/core/grpc-client.ts).
pub mod Messages
pub mod Server
pub mod Relay
