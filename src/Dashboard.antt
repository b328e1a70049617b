-- ===== src/Dashboard.antt =====
-- The dashboard's server (cmd/dashboard): its services, the processing of monitor reports, the check
-- for absent reports, the handlers of the HTTP interface, its routes and its authentication, and the load
-- of the configuration.
pub mod Services
pub mod Report
pub mod Absent
pub mod Pages
pub mod Handlers
pub mod Auth
pub mod Loading
pub mod Server
