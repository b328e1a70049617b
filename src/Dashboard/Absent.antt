-- ===== src/Dashboard/Absent.antt =====
-- `AbsentMonitoredComponentReportChecker` (cmd/dashboard/absent_report.go): sub-components whose
-- monitor has not reported for three times its frequency. Durations are in nanoseconds; a ping later
-- than now is no time ago. The timer that runs the check is not modelled.
pub mod Invariant
pub mod Effects
use ship_status_dash.Base.{
  ℕ, ◌+◌, ◌*◌, ◌-◌, String, ◌<>◌, Bool, true, false, not, ◌&&◌, Option, none, some, List, [], ◌∷◌,
  Exec, Result, ok, err, pure, attempt, ◌>>=◌, ◌>>◌, if◌then◌else◌, ltb,
}
use ship_status_dash.Types.Severity.{severity_down}
use ship_status_dash.Types.Outage.{null_time, Outage}
use ship_status_dash.Types.Outage.Validate.{validate}
use ship_status_dash.Types.Config.{Monitoring, SubComponent, Component}
use ship_status_dash.Env.{Error}
use ship_status_dash.Dashboard.Services.{Services, read_clock}
use ship_status_dash.Dashboard.Report.{resolve_each}

abbrev pub absent_report_source : String
absent_report_source = "absent-monitored-component-report"

abbrev pub absent_report_creator : String
absent_report_creator = "dashboard"

-- Why the sub-component is in outage, or `none` if it is not.
unfoldable pub absence : (ℕ → String) → (threshold now : ℕ) → Option ℕ → Option String
absence show threshold now none = some "No report from component-monitor found"
absence show threshold now (some last) =
    if ltb threshold (now - last)
    then some (
        "Last report from component-monitor was "
        <> (show (now - last) <> (" ago, exceeding threshold of " <> show threshold)))
    else none

unfoldable pub absent_outage : Component → SubComponent → String → ℕ → Outage
absent_outage component sub reason now = record {
  id = 0;
  component_name = component.slug;
  sub_component_name = sub.slug;
  severity = severity_down;
  start_time = now;
  end_time = null_time;
  description = "Component-monitor has not reported status within expected time. " <> reason;
  discovered_from = absent_report_source;
  created_by = absent_report_creator;
  confirmed_at =
      if sub.requires_confirmation then null_time else record { time = now; valid = true };
  triage_notes = none;
  reasons = [];
  slack_threads = [];
}

module _ {S : Type 0} (v : Services S) where
  abbrev pub Check : Type 0
  Check = Exec S Error (Unit {0})

  abbrev pub create_absent : String × Bool → Outage → Check
  create_absent (message, false) o = pure tt
  create_absent (message, true) o = do
    attempt (v.outage_manager.create_outage o [] absent_report_creator)
    pure tt

  abbrev pub open_absent : Outage → List Outage → Check
  open_absent o (active ∷ _) = pure tt
  open_absent o [] = create_absent (validate o) o

  abbrev pub react : Component → SubComponent → Monitoring → ℕ → Option String → List Outage → Check
  react component sub m now none active =
      if m.auto_resolve then resolve_each v now m.component_monitor active else pure tt
  react component sub m now (some reason) active =
      open_absent (absent_outage component sub reason now) active

  abbrev pub check_ping : Component → SubComponent → Monitoring → ℕ → Option ℕ → Check
  check_ping component sub m threshold last_ping = do
    now ← read_clock v
    active ←
        v.outage_manager.get_active_outages_discovered_from component.slug sub.slug
          absent_report_source
    react component sub m now (absence v.format_duration threshold now last_ping) active

  abbrev pub check_frequency : Component → SubComponent → Monitoring → Result Error ℕ → Check
  check_frequency component sub m (err e) = pure tt
  check_frequency component sub m (ok frequency) = do
    last_ping ← v.ping_repo.get_last_ping_time component.slug sub.slug
    check_ping component sub m (3 * frequency) last_ping

  abbrev pub check_monitoring : Component → SubComponent → Option Monitoring → Check
  check_monitoring component sub none = pure tt
  check_monitoring component sub (some m) =
      check_frequency component sub m (v.parse_duration m.frequency)

  -- The loop over the sub-components: an error skips to the next one.
  unfoldable pub check_sub_components : Component → List SubComponent → Check
  check_sub_components component [] = pure tt
  check_sub_components component (sub ∷ subs) = do
    attempt {E = Error} (check_monitoring component sub sub.monitoring)
    check_sub_components component subs

  unfoldable pub check_components : List Component → Check
  check_components [] = pure tt
  check_components (c ∷ cs) = do check_sub_components c c.subcomponents; check_components cs

  unfoldable pub check_for_absent_reports : Check
  check_for_absent_reports s = check_components (v.config s).components s
