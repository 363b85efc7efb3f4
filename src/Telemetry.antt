-- ===== src/Telemetry.antt =====
-- The telemetry of src/LSST/system.
pub mod Json
pub mod TelemetryItem
pub mod TelemetryMap
pub mod TelemetryCom
pub mod Compare
pub mod Objects
pub mod Examples
