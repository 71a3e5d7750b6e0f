-- ===== src/Scope.antt =====
-- native/server/src/scope.
pub mod FrameQueue
