-- ===== src/Nml.antt =====
-- Commands of the NML channel.
pub mod Validation
