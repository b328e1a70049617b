-- ===== src/Types/Monitoring.antt =====
-- The component monitor's configuration (pkg/types/config.go). A pointer that may be nil is an
-- `Option`. A number of runs may be negative; a negative code is outside of the model.
use ship_status_dash.Base.{ℕ, String, Bool, true, false, Option, List}
use ship_status_dash.Types.Severity.{Severity}

-- Go's `int`: `negsuc n` is below 0 by one more than `n`.
pub data ℤ : Type 0 where
  pos : ℕ → ℤ
  negsuc : ℕ → ℤ

abbrev pub is_negative : ℤ → Bool
is_negative (pos n) = false
is_negative (negsuc n) = true

-- The number, or 0 if it is negative.
abbrev pub to_nat : ℤ → ℕ
to_nat (pos n) = n
to_nat (negsuc n) = 0

pub record PrometheusLocation : Type 0 where
  pub url : String
  pub cluster : String
  pub namespace : String
  pub route : String
  pub service : String

pub record PrometheusQuery : Type 0 where
  pub query : String
  pub severity : Severity
  pub failure_query : String
  pub duration : String
  pub step : String

pub record PrometheusMonitor : Type 0 where
  pub prometheus_location : PrometheusLocation
  pub queries : List PrometheusQuery

pub record SystemdMonitor : Type 0 where
  pub unit : String
  pub severity : Severity

pub record JunitMonitor : Type 0 where
  pub gcs_bucket : String
  pub job_name : String
  pub max_age : String
  pub severity : Severity
  pub artifact_url_style : String
  pub gcs_web_base_url : String
  pub history_runs : ℤ
  pub failed_runs_threshold : ℤ

pub record HttpMonitor : Type 0 where
  pub url : String
  pub code : ℕ
  pub retry_after : String
  pub severity : Severity

pub record MonitoringComponent : Type 0 where
  pub component_slug : String
  pub sub_component_slug : String
  pub prometheus_monitor : Option PrometheusMonitor
  pub http_monitor : Option HttpMonitor
  pub systemd_monitor : Option SystemdMonitor
  pub junit_monitor : Option JunitMonitor

pub record ComponentMonitorConfig : Type 0 where
  pub components : List MonitoringComponent
  pub frequency : String
