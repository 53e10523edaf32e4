-- ===== src/Grpc.antt =====
-- The gRPC services of the mastermind, internal/mastermind/grpcserver.
pub mod Status
pub mod Server
pub mod Admin
