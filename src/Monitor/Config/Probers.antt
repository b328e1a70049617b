-- ===== src/Monitor/Config/Probers.antt =====
-- `createProbers` (cmd/component-monitor/main.go). A prober of Prometheus comes with the key of its
-- client. `err` stands for the fatal end of the program.
use ship_status_dash.Base.{
  ℕ, String, Option, none, some, List, [], ◌∷◌, ◌++◌, Result, ok, err, trim_space, ◌==◌, nat_eq,
  string_eq, if◌then◌else◌,
}
use ship_status_dash.Types.Monitoring.{
  PrometheusMonitor, SystemdMonitor, JunitMonitor, HttpMonitor, MonitoringComponent, to_nat,
}
use ship_status_dash.Monitor.Http.{HttpProber, new_http_prober}
use ship_status_dash.Monitor.Junit.{JunitProber, JunitProberSettings, style_gcs, new_junit_prober}
use ship_status_dash.Monitor.Prometheus.{PrometheusProber, new_prometheus_prober}
use ship_status_dash.Monitor.Systemd.{SystemdProber, new_systemd_prober}
use ship_status_dash.Monitor.Config.{Libraries, style_of}
use ship_status_dash.Monitor.Config.Locations.{get_prometheus_location_key}

pub data Prober : Type 0 where
  http_prober : HttpProber → Prober
  prometheus_prober : String → PrometheusProber → Prober
  systemd_prober : SystemdProber → Prober
  junit_prober : JunitProber → Prober

abbrev pub at_least_one : ℕ → ℕ
at_least_one n = if n == 0 then 1 else n

module _ (lib : Libraries) (c : MonitoringComponent) where
  abbrev pub http_of : HttpMonitor → Result String ℕ → Result String (List Prober)
  http_of m (err e) = err "Failed to parse retry after duration"
  http_of m (ok retry_after) = ok (
      http_prober
        (new_http_prober c.component_slug c.sub_component_slug m.url m.code retry_after m.severity)
      ∷ [])

  abbrev pub http_probers : Option HttpMonitor → Result String (List Prober)
  http_probers none = ok []
  http_probers (some m) = http_of m (lib.parse_duration m.retry_after)

  abbrev pub prometheus_probers : Option PrometheusMonitor → List Prober
  prometheus_probers none = []
  prometheus_probers (some m) =
      prometheus_prober (get_prometheus_location_key m.prometheus_location)
        (new_prometheus_prober c.component_slug c.sub_component_slug m.queries)
      ∷ []

  abbrev pub systemd_probers : Option SystemdMonitor → List Prober
  systemd_probers none = []
  systemd_probers (some m) =
      systemd_prober (new_systemd_prober c.component_slug c.sub_component_slug m.unit m.severity)
      ∷ []

  -- A number of runs or a threshold below 0 counts as 0, which the code treats alike.
  abbrev pub settings_of : JunitMonitor → JunitProberSettings
  settings_of m = record {
    artifact_url_style = if style_of lib m == "" then style_gcs else style_of lib m;
    gcs_web_base_url = trim_space m.gcs_web_base_url;
    history_runs = at_least_one (to_nat m.history_runs);
    failed_runs_threshold =
        if at_least_one (to_nat m.history_runs) == 1 then 1 else to_nat m.failed_runs_threshold;
  }

  abbrev pub junit_of : JunitMonitor → Result String ℕ → Result String (List Prober)
  junit_of m (err e) = err "Failed to parse max_age duration"
  junit_of m (ok max_age) = ok (
      junit_prober (
        new_junit_prober c.component_slug c.sub_component_slug m.gcs_bucket (trim_space m.job_name)
          max_age m.severity (settings_of m))
      ∷ [])

  abbrev pub junit_probers : Option JunitMonitor → Result String (List Prober)
  junit_probers none = ok []
  junit_probers (some m) = junit_of m (lib.parse_duration m.max_age)

  abbrev pub and_then :
      Result String (List Prober) → Result String (List Prober) → Result String (List Prober)
  and_then (err e) rest = err e
  and_then (ok ps) (err e) = err e
  and_then (ok ps) (ok qs) = ok (ps ++ qs)

  unfoldable pub component_probers : Result String (List Prober)
  component_probers = and_then (http_probers c.http_monitor) (
      and_then (ok (prometheus_probers c.prometheus_monitor ++ systemd_probers c.systemd_monitor))
        (junit_probers c.junit_monitor))

unfoldable pub create_probers : Libraries → List MonitoringComponent → Result String (List Prober)
create_probers lib [] = ok []
create_probers lib (c ∷ cs) = and_then lib c (component_probers lib c) (create_probers lib cs)
