-- ===== src/Hal.antt =====
-- HAL: the values and their messages, the streams and the registry of remote components, and telemetry.
pub mod Outbox
pub mod Values
pub mod Mapping
pub mod Components
pub mod Registry
pub mod Telemetry
pub mod Stream
pub mod Adapter
