-- ===== src/Monitor/Prometheus/Laws.antt =====
-- The status that a Prometheus probe reports is that of the most severe of its failed queries.
use ship_status_dash.Base.{◌≤◌, ◌<◌, ◌≡◌, ◌⊎◌, none, List, [], Result, ok, err, All, Any, string_eq}
use ship_status_dash.Types.Severity.{Severity, status_healthy, to_status, get_severity_level}
use ship_status_dash.Types.Monitoring.{PrometheusQuery}
use ship_status_dash.Monitor.{ProbeResult}
use ship_status_dash.Monitor.Prometheus.{
  PrometheusClient, PrometheusProber, Outcome, QueryError, create_error_result,
}

-- A severity that the program knows.
abbrev pub IsKnown : PrometheusQuery → Type 0
IsKnown q = 0 < get_severity_level q.severity

-- The most severe of the severities of some queries.
abbrev pub IsWorst : Severity → List PrometheusQuery → Type 0
IsWorst severity qs =
    Any (λ q. q.severity ≡ severity) qs
    × All (λ q. get_severity_level q.severity ≤ get_severity_level severity) qs

-- How the result follows from the outcome of the queries.
abbrev pub IsJudged : Outcome → ProbeResult → Type 0
IsJudged o result =
    (result.error ≡ none)
    × (((o.failing ≡ []) × (result.status.status ≡ status_healthy))
        ⊎ ((severity : Severity) × IsWorst severity o.failing
            × (result.status.status ≡ to_status severity)))

module _ {S : Type 0} (client : PrometheusClient S) (p : PrometheusProber) where
  -- What the probe ends with, by what the queries came to.
  abbrev pub IsReported : Result QueryError Outcome → Result QueryError ProbeResult → Type 0
  IsReported queries ending =
      ((e : QueryError) × (queries ≡ err e) × (ending ≡ ok (create_error_result p e.query e.text)))
      ⊎ ((o : Outcome) × (queries ≡ ok o)
          × (result : ProbeResult) × (ending ≡ ok result)
          × IsJudged o result)
