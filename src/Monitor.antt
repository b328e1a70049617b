-- ===== src/Monitor.antt =====
-- The component monitor (cmd/component-monitor): the results of its probes, their merge into one
-- status for each sub-component, the loop that collects them, the client that sends the report, the
-- probes themselves, and the configuration that they are made of.
pub mod Merge
pub mod MergeLaws
pub mod Order
pub mod Grouping
pub mod Http
pub mod Junit
pub mod Prometheus
pub mod Systemd
pub mod Severities
pub mod Config
pub mod Orchestrator
pub mod Client
use ship_status_dash.Base.{String, Option}
use ship_status_dash.Env.{Error}
use ship_status_dash.Dashboard.Report.{ReportStatus}

-- `ProbeResult`: a status, the type of the probe, and an error or nil.
pub record ProbeResult : Type 0 where
  pub status : ReportStatus
  pub probe_type : String
  pub error : Option Error
