-- ===== src/Otel.antt =====
-- Telemetry of executions (otel/): the configuration of an adapter, and the observer that it puts
-- into every call of `Fire`.
pub mod Config
pub mod Sdk
pub mod Adapter
pub mod Attributes
pub mod Observer
