-- ===== src/Grpc.antt =====
-- native/server/src/grpc/server.
pub mod DeferredFinish
