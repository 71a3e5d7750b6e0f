-- ===== src/Runtime.antt =====
-- native/server/include/linuxcnc_grpc/callback_runtime.hpp and native/server/src/callback_runtime.cc.
pub mod Executor
pub mod Admission
pub mod Ring
pub mod Hub
pub mod Gate
