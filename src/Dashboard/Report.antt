-- ===== src/Dashboard/Report.antt =====
-- `ComponentMonitorReportProcessor` (cmd/dashboard/component_monitoring_report.go).
pub mod Validation
pub mod Counts
pub mod Invariant
pub mod Effects
use ship_status_dash.Base.{
  ℕ, String, ◌<>◌, Bool, true, false, not, Option, none, some, List, [], ◌∷◌, ◌++◌, Exec, Result,
  ok, err, pure, raise, attempt, ◌>>=◌, ◌>>◌, ◌==◌, string_eq, if◌then◌else◌, ◌||◌, ◌&&◌,
}
use ship_status_dash.Types.Severity.{Status, Severity, status_healthy, to_severity}
use ship_status_dash.Types.Outage.{NullTime, null_time, Outage, Reason}
use ship_status_dash.Types.Outage.Validate.{validate}
use ship_status_dash.Types.Config.{
  Monitoring, SubComponent, Component, Owner, DashboardConfig, get_component_by_slug,
  get_sub_component_by_slug,
}
use ship_status_dash.Env.{Error, failed}
use ship_status_dash.Dashboard.Services.{Services, read_clock}

-- pkg/types/api.go
pub record ReportStatus : Type 0 where
  pub component_slug : String
  pub sub_component_slug : String
  pub status : Status
  pub reasons : List Reason

pub record ReportRequest : Type 0 where
  pub component_monitor : String
  pub statuses : List ReportStatus

abbrev pub component_monitor_source : String
component_monitor_source = "component-monitor"

-- Some owner names the service account, and it is not empty.
abbrev pub is_owner : List Owner → String → Bool
is_owner [] account = false
is_owner (o ∷ os) account =
    let rest = is_owner os account in
    if o.service_account == "" then rest else if o.service_account == account then true else rest

abbrev pub monitored_by : Option Monitoring → String → Bool
monitored_by none monitor = false
monitored_by (some m) monitor = m.component_monitor == monitor

abbrev pub sub_component_errors : Option SubComponent → String → ReportStatus → List String
sub_component_errors none monitor status =
    ("sub-component not found: " <> (status.component_slug <> ("/" <> status.sub_component_slug)))
    ∷ []
sub_component_errors (some sub) monitor status =
    if monitored_by sub.monitoring monitor
    then []
    else ("improper component monitor source: "
        <> (monitor <> (" for: " <> (status.component_slug <> ("/" <> status.sub_component_slug)))))
      ∷ []

abbrev pub component_errors : Option Component → String → String → ReportStatus → List String
component_errors none monitor account status =
    ("component not found: " <> status.component_slug) ∷ []
component_errors (some component) monitor account status =
    if is_owner component.owners account
    then sub_component_errors (get_sub_component_by_slug component status.sub_component_slug)
        monitor status
    else ("service account "
        <> (account <> (" is not an owner of component " <> status.component_slug)))
      ∷ []

-- The messages that `ValidateRequest` collects; none is Go's nil error.
unfoldable pub validation_errors :
    DashboardConfig → String → String → List ReportStatus → List String
validation_errors cfg monitor account [] = []
validation_errors cfg monitor account (status ∷ statuses) =
    component_errors (get_component_by_slug cfg status.component_slug) monitor account status
    ++ validation_errors cfg monitor account statuses

unfoldable pub validate_request : DashboardConfig → ReportRequest → String → List String
unfolding validation_errors
validate_request cfg req account = validation_errors cfg req.component_monitor account req.statuses

abbrev pub auto_resolves : Option Monitoring → Bool
auto_resolves none = false
auto_resolves (some m) = m.auto_resolve

-- The outage that an unhealthy report opens.
unfoldable pub new_outage : String → SubComponent → ReportStatus → Severity → ℕ → Outage
new_outage monitor sub status severity now = record {
  id = 0;
  component_name = status.component_slug;
  sub_component_name = status.sub_component_slug;
  severity = severity;
  start_time = now;
  end_time = null_time;
  description = "Component monitor detected outage";
  discovered_from = component_monitor_source;
  created_by = monitor;
  confirmed_at =
      if sub.requires_confirmation then null_time else record { time = now; valid = true };
  triage_notes = none;
  reasons = [];
  slack_threads = [];
}

module _ {S : Type 0} (v : Services S) where
  -- The loop that ends the active outages. A failure is logged and passed over.
  unfoldable pub resolve_each : ℕ → String → List Outage → Exec S Error (Unit {0})
  resolve_each now user [] = pure tt
  resolve_each now user (o ∷ os) = do
    attempt (
        v.outage_manager.update_outage (record o { end_time = record { time = now; valid = true } })
          user)
    resolve_each now user os

  unfoldable pub process_healthy : String → SubComponent → ℕ → List Outage → Exec S Error (Unit {0})
  process_healthy monitor sub now [] = pure tt
  process_healthy monitor sub now (o ∷ os) =
      if auto_resolves sub.monitoring then resolve_each now monitor (o ∷ os) else pure tt

  abbrev pub open_outage : String × Bool → Outage → List Reason → String → Exec S Error (Unit {0})
  open_outage (message, false) o reasons monitor = raise (failed ("validation failed: " <> message))
  open_outage (message, true) o reasons monitor = do
    attempt (v.outage_manager.create_outage o reasons monitor)
    pure tt

  -- A report with no reasons opens nothing.
  abbrev pub open_with_reasons : List Reason → Outage → String → Exec S Error (Unit {0})
  open_with_reasons [] o monitor = pure tt
  open_with_reasons (r ∷ rs) o monitor = open_outage (validate o) o (r ∷ rs) monitor

  unfoldable pub process_unhealthy :
      String → SubComponent → ReportStatus → ℕ → List Outage → Exec S Error (Unit {0})
  process_unhealthy monitor sub status now (o ∷ os) = pure tt
  process_unhealthy monitor sub status now [] =
      let severity = to_severity status.status in
      let o = new_outage monitor sub status severity now in
      if severity == "" then pure tt else open_with_reasons status.reasons o monitor

  abbrev pub process_active : String → SubComponent → ReportStatus → ℕ → Exec S Error (Unit {0})
  process_active monitor sub status now = do
    active ←
        v.outage_manager.get_active_outages_created_by status.component_slug
          status.sub_component_slug monitor
    if status.status == status_healthy
        then process_healthy monitor sub now active
        else process_unhealthy monitor sub status now active

  abbrev pub process_found : String → SubComponent → ReportStatus → Exec S Error (Unit {0})
  process_found monitor sub status = do
    now ← read_clock v
    v.ping_repo.upsert_component_report_ping status.component_slug status.sub_component_slug now
    process_active monitor sub status now

  abbrev pub process_in_component :
      String → Option SubComponent → ReportStatus → Exec S Error (Unit {0})
  process_in_component monitor none status = raise (
      failed (
        "sub-component not found: "
        <> (status.component_slug <> ("/" <> status.sub_component_slug))))
  process_in_component monitor (some sub) status = process_found monitor sub status

  abbrev pub process_in : String → Option Component → ReportStatus → Exec S Error (Unit {0})
  process_in monitor none status = raise (failed ("component not found: " <> status.component_slug))
  process_in monitor (some component) status =
      process_in_component monitor (get_sub_component_by_slug component status.sub_component_slug)
        status

  -- One round of the loop over the statuses.
  unfoldable pub process_status : String → ReportStatus → Exec S Error (Unit {0})
  process_status monitor status s =
      process_in monitor (get_component_by_slug (v.config s) status.component_slug) status s

  unfoldable pub process_each : String → List ReportStatus → Exec S Error (Unit {0})
  process_each monitor [] = pure tt
  process_each monitor (status ∷ statuses) = do
    process_status monitor status
    process_each monitor statuses

  unfoldable pub process : ReportRequest → Exec S Error (Unit {0})
  process req = process_each req.component_monitor req.statuses
