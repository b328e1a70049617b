-- ===== src/Tests/Monitor.antt =====
-- The probes of Prometheus, systemd and HTTP, and a configuration of the component monitor.
use ship_status_dash.Base.{
  ℕ, String, ◌≡◌, ◌≢◌, refl, ◌⊎◌, Bool, true, false, none, some, List, [], ◌∷◌, Result, ok, err,
  arith, Char, ascii,
}
use ship_status_dash.Types.Severity.{
  severity_degraded, severity_suspected, status_healthy, to_status, is_valid_severity,
}
use ship_status_dash.Types.Monitoring.{
  pos, PrometheusQuery, JunitMonitor, MonitoringComponent, ComponentMonitorConfig,
}
use ship_status_dash.Types.Severity
use ship_status_dash.Dashboard.Report.{ReportStatus}
use ship_status_dash.Monitor.Merge.{merge_statuses_for_sub_component}
use ship_status_dash.Monitor.Http.{HttpProber, make_status}
use ship_status_dash.Monitor.Severities.{merged-severity}
use ship_status_dash.Monitor.Prometheus.{PrometheusClient, PrometheusProber, vector}
use ship_status_dash.Monitor.Prometheus
use ship_status_dash.Monitor.Systemd.{escape_unit_name}
use ship_status_dash.Monitor.Systemd.Laws.{escape_unit_name-distinct}
use ship_status_dash.Monitor.Config.{Libraries}
use ship_status_dash.Monitor.Config
use ship_status_dash.Monitor.Config.Loading.{validate_config}
use ship_status_dash.Monitor.Config.Locations
use ship_status_dash.Monitor.Config.Probers.{create_probers}
use ship_status_dash.Monitor.Config.Laws.{AreSound, validate_config-AreSound}

-- Each query returns nothing, so all of them fail.
abbrev client : PrometheusClient ℕ
client = record {
  query = λ q time s. (ok (some (vector [])), s);
  query_range = λ q range s. (err "timeout", s);
  now = λ s. (100, s);
  parse_duration = λ text. ok 60;
}

abbrev query : PrometheusQuery
query = record {
  query = "up";
  severity = severity_degraded;
  failure_query = "reason";
  duration = "";
  step = "";
}

abbrev prober : PrometheusProber
prober = record {
  component_slug = "prow";
  sub_component_slug = "tide";
  prometheus_queries = query ∷ record query { severity = severity_suspected } ∷ [];
}

escape_unit_name-distinct_example : escape_unit_name (ascii "a-b") ≢ escape_unit_name (ascii "a.b")
escape_unit_name-distinct_example =
    escape_unit_name-distinct (ascii "a-b") (ascii "a.b")
      (omega arith, (omega arith, (omega arith, tt)))
      (omega arith, (omega arith, (omega arith, tt))) (λ e. ground (arith, e))

-- A prober whose severity has a lower-case letter.
abbrev http : HttpProber
http = record {
  component_slug = "prow";
  sub_component_slug = "tide";
  url = "https://prow.example";
  expected_status_code = 200;
  confirm_after = 0;
  severity = "down";
}

merged-severity_example :
    (merged : ReportStatus) × (merge_statuses_for_sub_component "prow" "tide"
        (make_status http 503 ∷ [])
      ≡ some merged)
    × (((is_valid_severity "down" ≡ true) × (merged.status ≡ to_status "down"))
        ⊎ ((is_valid_severity "down" ≡ false)
            × (merged.status ≡ status_healthy)
            × (merged.reasons ≡ [])))
merged-severity_example = merged-severity http 503 (λ e. omega (arith, e))

abbrev libraries : Libraries
libraries = record {
  lower = λ (c : Char). c;
  parse_duration = λ text. ok 60000000000;
  print_duration = λ d. "1m0s";
  is_url = λ text. true;
  has_file = λ path. true;
  quote = λ text. text;
}

abbrev canary : JunitMonitor
canary = record {
  gcs_bucket = "";
  job_name = "canary";
  max_age = "24h";
  severity = "";
  artifact_url_style = "";
  gcs_web_base_url = "";
  history_runs = pos 3;
  failed_runs_threshold = pos 2;
}

abbrev component : MonitoringComponent
component = record {
  component_slug = "prow";
  sub_component_slug = "tide";
  prometheus_monitor = none;
  http_monitor = none;
  systemd_monitor = none;
  junit_monitor = some canary;
}

abbrev config : ComponentMonitorConfig
config = record { components = component ∷ []; frequency = "5m" }

accepted : validate_config libraries "" config ≡ ok config
unfolding validate_config Config.first_error Config.component_error Config.systemd_error
    Config.http_error Config.junit_error ship_status_dash.Base.trim_space Config.style_error
    ship_status_dash.Utils.Slugify.to_lower Config.threshold_error
    Locations.validate_prometheus_configuration Config.set_default_severity_values
    Config.set_default_step_values
accepted = refl

validate_config-AreSound_example : AreSound (create_probers libraries config.components)
validate_config-AreSound_example = validate_config-AreSound libraries "" config config accepted
