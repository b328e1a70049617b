-- ===== src/Repositories.antt =====
-- The repositories over the database (pkg/repositories), and the hooks of an outage that write the
-- audit log (pkg/types/models.go).
pub mod Hooks
pub mod Outages
pub mod Pings
pub mod SlackThreads
pub mod Audit
