-- ===== src/Monitor/Config.antt =====
-- The configuration of the component monitor (cmd/component-monitor/main.go and prometheus.go): its
-- defaults, its validation, and the probers that it makes. Durations are numbers of nanoseconds, not
-- negative. `has_file` says whether the file system has a path, `is_url` whether a text is a URL of HTTP,
-- `print_duration` is `Duration.String` and `quote` the format `%q`.
pub mod Locations
pub mod Loading
pub mod Probers
pub mod Laws
use ship_status_dash.Base.{
  ℕ, ◌/◌, String, ◌<>◌, Char, Bool, true, false, not, ◌&&◌, ◌||◌, Option, none, some, List, [], ◌∷◌,
  ◌++◌, map, Bytes, Exec, Result, ok, err, pure, raise, or_raise, ◌>>=◌, ◌>>◌, trim_space, ltb,
  join, ◌==◌, nat_eq, string_eq, if◌then◌else◌,
}
use ship_status_dash.Types.Severity.{severity_down}
use ship_status_dash.Types.Monitoring.{
  is_negative, to_nat, PrometheusQuery, PrometheusMonitor, SystemdMonitor, JunitMonitor,
  HttpMonitor, MonitoringComponent, ComponentMonitorConfig,
}
use ship_status_dash.Utils.Format.{decimal}
use ship_status_dash.Utils.Slugify.{to_lower}
use ship_status_dash.Monitor.Junit.{style_gcs, style_gcs_web}

pub record Libraries : Type 0 where
  pub lower : Char → Char
  pub parse_duration : String → Result String ℕ
  pub print_duration : ℕ → String
  pub is_url : String → Bool
  pub has_file : String → Bool
  pub quote : String → String

abbrev pub at_component : MonitoringComponent → String
at_component c = c.component_slug <> ("/" <> c.sub_component_slug)

abbrev pub hour : ℕ
hour = 3600000000000

module _ (lib : Libraries) where
  abbrev default_step : Result String ℕ → PrometheusQuery → PrometheusQuery
  default_step (err e) q = q
  default_step (ok d) q = record q {
    step = if ltb hour d then lib.print_duration (d / 250) else "15s";
  }

  unfoldable pub set_default_step : PrometheusQuery → PrometheusQuery
  set_default_step q =
      if not (q.duration == "") && q.step == ""
      then default_step (lib.parse_duration q.duration) q
      else q

  unfoldable pub set_default_severity : PrometheusQuery → PrometheusQuery
  set_default_severity q = if q.severity == "" then record q { severity = severity_down } else q

  abbrev pub map_queries :
      (PrometheusQuery → PrometheusQuery) → Option PrometheusMonitor → Option PrometheusMonitor
  map_queries f none = none
  map_queries f (some m) = some (record m { queries = map f m.queries })

  abbrev pub with_queries :
      (PrometheusQuery → PrometheusQuery) → MonitoringComponent → MonitoringComponent
  with_queries f c = record c { prometheus_monitor = map_queries f c.prometheus_monitor }

  unfoldable pub set_default_step_values : ComponentMonitorConfig → ComponentMonitorConfig
  set_default_step_values cfg = record cfg {
    components = map (with_queries set_default_step) cfg.components;
  }

  unfoldable pub set_default_severity_values : ComponentMonitorConfig → ComponentMonitorConfig
  set_default_severity_values cfg = record cfg {
    components = map (with_queries set_default_severity) cfg.components;
  }

  -- The checks of one component: a message where it is refused.
  unfoldable pub systemd_error : MonitoringComponent → Option SystemdMonitor → Option String
  systemd_error c none = none
  systemd_error c (some m) =
      if trim_space m.unit == ""
      then some ("systemd unit is required for component " <> at_component c)
      else none

  abbrev retry_error : MonitoringComponent → ℕ → HttpMonitor → Result String ℕ → Option String
  retry_error c frequency m (err e) =
      some
        ("failed to parse retry after duration for component " <> (at_component c <> (": " <> e)))
  retry_error c frequency m (ok retry_after) =
      if ltb frequency retry_after
      then some (
          "retry after duration is greater than frequency for component "
          <> (at_component c
              <> (": " <> (m.retry_after <> (" > " <> lib.print_duration frequency)))))
      else none

  unfoldable pub http_error : MonitoringComponent → ℕ → Option HttpMonitor → Option String
  http_error c frequency none = none
  http_error c frequency (some m) = retry_error c frequency m (lib.parse_duration m.retry_after)

  unfoldable pub threshold_error : MonitoringComponent → JunitMonitor → Option String
  threshold_error c m =
      if is_negative m.history_runs
      then some (
          "history_runs for junit_monitor on component "
          <> (at_component c <> " must be non-negative"))
      else if not (ltb 1 (to_nat m.history_runs))
      then none
      else if ltb (to_nat m.failed_runs_threshold) 1
      then some (
          "failed_runs_threshold is required and must be >=1 when history_runs >1 for junit_monitor on component "
          <> at_component c)
      else if ltb (to_nat m.history_runs) (to_nat m.failed_runs_threshold)
      then some (
          "failed_runs_threshold for junit_monitor on component "
          <> (at_component c
              <> (" must be <= history_runs ("
                  <> (decimal (to_nat m.history_runs)
                      <> ("), got " <> decimal (to_nat m.failed_runs_threshold))))))
      else none

  abbrev pub style_of : JunitMonitor → String
  style_of m = to_lower lib.lower (trim_space m.artifact_url_style)

  unfoldable pub style_error : MonitoringComponent → JunitMonitor → Option String
  style_error c m =
      if style_of m == "" || style_of m == style_gcs || style_of m == style_gcs_web
      then threshold_error c m
      else some (
          "artifact_url_style for junit_monitor on component "
          <> (at_component c
              <> (" must be "
                  <> (lib.quote style_gcs
                      <> (" or "
                          <> (lib.quote style_gcs_web
                              <> (", got " <> lib.quote m.artifact_url_style)))))))

  abbrev age_error : MonitoringComponent → JunitMonitor → Result String ℕ → Option String
  age_error c m (err e) =
      some ("invalid max_age for junit_monitor on component " <> (at_component c <> (": " <> e)))
  age_error c m (ok max_age) =
      if max_age == 0
      then some (
          "max_age for junit_monitor on component "
          <> (at_component c <> (" must be a positive duration, got " <> lib.quote m.max_age)))
      else style_error c m

  unfoldable pub junit_error : MonitoringComponent → Option JunitMonitor → Option String
  junit_error c none = none
  junit_error c (some m) =
      if trim_space m.job_name == ""
      then some ("job_name is required for junit_monitor on component " <> at_component c)
      else age_error c m (lib.parse_duration m.max_age)

  abbrev pub or_else : Option String → Option String → Option String
  or_else none later = later
  or_else (some e) later = some e

  unfoldable pub component_error : ℕ → MonitoringComponent → Option String
  component_error frequency c =
      or_else (systemd_error c c.systemd_monitor)
        (or_else (http_error c frequency c.http_monitor) (junit_error c c.junit_monitor))

  unfoldable pub first_error : ℕ → List MonitoringComponent → Option String
  first_error frequency [] = none
  first_error frequency (c ∷ cs) = or_else (component_error frequency c) (first_error frequency cs)
