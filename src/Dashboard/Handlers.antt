-- ===== src/Dashboard/Handlers.antt =====
-- The handlers of the HTTP interface (cmd/dashboard/handlers.go). What they share stands in `Http`.
pub mod Http
pub mod Access
pub mod Outages
pub mod Changes
pub mod Rows
pub mod Status
pub mod Listing
pub mod Pages
pub mod ReadOnly
pub mod Authorization
pub mod StatusLaws
pub mod PartialLaws
