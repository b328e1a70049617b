-- ===== src/Types.antt =====
-- The data that the dashboard and the component monitor share (pkg/types).
pub mod Severity
pub mod Outage
pub mod Config
pub mod Monitoring
