-- ===== src/Position.antt =====
-- native/server/src/position.
pub mod History
