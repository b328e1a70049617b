-- ===== src/Monitor/Config/Laws.antt =====
-- An accepted configuration can be run: its probers can be made, and their settings make sense.
use ship_status_dash.Base.{
  ℕ, ◌≤◌, String, ◌≡◌, ◌≢◌, refl, subst, Bool, true, false, Option, none, some, List, [], ◌∷◌, ◌++◌,
  map, Result, ok, err, arith, eq_iff, All, All-append, ◌==◌, nat_eq, string_eq, if◌then◌else◌,
}
use ship_status_dash.Types.Severity.{severity_down}
use ship_status_dash.Types.Monitoring.{
  PrometheusQuery, PrometheusMonitor, SystemdMonitor, JunitMonitor, HttpMonitor,
  MonitoringComponent, ComponentMonitorConfig,
}
use ship_status_dash.Monitor.Junit.{new_junit_prober}
use ship_status_dash.Monitor.Http.{new_http_prober}
use ship_status_dash.Monitor.Systemd.{new_systemd_prober}
use ship_status_dash.Monitor.Prometheus.{new_prometheus_prober}
use ship_status_dash.Monitor.Config.{
  Libraries, set_default_step, set_default_severity, map_queries, http_error, junit_error,
  style_error, threshold_error, systemd_error, component_error, first_error, or_else, with_queries,
  set_default_step_values, set_default_severity_values,
}
use ship_status_dash.Monitor.Config.Loading.{
  check_locations, check_components, check_frequency, with_defaults, validate_config,
}
use ship_status_dash.Monitor.Config.Probers.{
  Prober, http_prober, prometheus_prober, systemd_prober, junit_prober, http_probers,
  prometheus_probers, systemd_probers, junit_probers, junit_of, http_of, and_then,
  component_probers, create_probers,
}

-- The severities are set, and a JUnit probe wants between one and all of its runs to fail alike.
abbrev pub IsSound : Prober → Type 0
IsSound (http_prober p) = p.severity ≢ ""
IsSound (prometheus_prober key p) =
    All (λ (q : PrometheusQuery). q.severity ≢ "") p.prometheus_queries
IsSound (systemd_prober p) = p.severity ≢ ""
IsSound (junit_prober p) =
    (p.severity ≢ "")
    × (1 ≤ p.settings.failed_runs_threshold)
    × (p.settings.failed_runs_threshold ≤ p.settings.history_runs)

-- The probers were made, and are sound.
abbrev pub AreSound : Result String (List Prober) → Type 0
AreSound r = (ps : List Prober) × (r ≡ ok ps) × All IsSound ps

default_set : (s d : String) → d ≢ "" → (if s == "" then d else s) ≢ ""
default_set s d h = ground (arith, h, eq_iff s "")

module _ (lib : Libraries) where
  and_then-AreSound :
      (c : MonitoringComponent) (r t : Result String (List Prober))
      → AreSound r
      → AreSound t
      → AreSound (and_then lib c r t)
  and_then-AreSound c (err e) t h k = cc h.1
  and_then-AreSound c (ok ps) (err e) h k = cc k.1
  and_then-AreSound c (ok ps) (ok qs) (ps', e, h) (qs', f, k) =
      let one : ps' ≡ ps = ground (arith, e) in
      let two : qs' ≡ qs = ground (arith, f) in
      (
        ps ++ qs,
        refl,
        All-append IsSound ps qs (subst (All IsSound) one h) (subst (All IsSound) two k),
      )

  http-AreSound :
      (c d : MonitoringComponent) (frequency : ℕ) (o : Option HttpMonitor)
      → http_error lib c frequency o ≡ none
      → AreSound (http_probers lib d o)
  unfolding http_error new_http_prober
  http-AreSound c d frequency none h = ([], refl, tt)
  http-AreSound c d frequency (some m) h = by_retry (lib.parse_duration m.retry_after) refl
    where
      by_retry :
          (r : Result String ℕ)
          → lib.parse_duration m.retry_after ≡ r
          → AreSound (http_of lib d m r)
      by_retry (err e) f = ground (arith, h, f)
      by_retry (ok t) f = (_, refl, (default_set m.severity "Down" (λ k. cc k), tt))

  junit-AreSound :
      (c d : MonitoringComponent) (o : Option JunitMonitor)
      → junit_error lib c o ≡ none
      → AreSound (junit_probers lib d o)
  unfolding junit_error style_error threshold_error new_junit_prober
  junit-AreSound c d none h = ([], refl, tt)
  junit-AreSound c d (some m) h = by_age (lib.parse_duration m.max_age) refl
    where
      by_age :
          (r : Result String ℕ) → lib.parse_duration m.max_age ≡ r → AreSound (junit_of lib d m r)
      by_age (err e) f = ground (arith, h, f)
      by_age (ok t) f = (
        _,
        refl,
        (
          (
            default_set m.severity "Degraded" (λ k. cc k),
            ground (arith, h, f),
            ground (arith, h, f),
          ),
          tt,
        ),
      )

  systemd-IsSound :
      (c : MonitoringComponent) (o : Option SystemdMonitor) → All IsSound (systemd_probers lib c o)
  unfolding new_systemd_prober
  systemd-IsSound c none = tt
  systemd-IsSound c (some m) = (default_set m.severity "Down" (λ k. cc k), tt)

  severity-set :
      (q : PrometheusQuery) (b : Bool)
      → (q.severity == "") ≡ b
      → (if b then record q { severity = severity_down } else q).severity ≢ ""
  severity-set q true e = λ h. cc h
  severity-set q false e = λ h. ground (arith, e, h, eq_iff q.severity "")

  severities-set :
      (qs : List PrometheusQuery)
      → All (λ (q : PrometheusQuery). q.severity ≢ "") (map (set_default_severity lib) qs)
  unfolding set_default_severity
  severities-set [] = tt
  severities-set (q ∷ qs) = (severity-set q (q.severity == "") refl, severities-set qs)

  prometheus-IsSound :
      (c : MonitoringComponent) (o : Option PrometheusMonitor)
      → All IsSound (prometheus_probers lib c (map_queries lib (set_default_severity lib) o))
  unfolding new_prometheus_prober
  prometheus-IsSound c none = tt
  prometheus-IsSound c (some m) = (severities-set m.queries, tt)

  -- A component with the defaults of its queries.
  abbrev defaulted : MonitoringComponent → MonitoringComponent
  defaulted c =
      with_queries lib (set_default_severity lib) (with_queries lib (set_default_step lib) c)

  or_else-none : (a b : Option String) → or_else lib a b ≡ none → (a ≡ none) × (b ≡ none)
  or_else-none none b h = (refl, h)
  or_else-none (some e) b h = cc h

  component-AreSound :
      (frequency : ℕ) (c : MonitoringComponent)
      → component_error lib frequency c ≡ none
      → AreSound (component_probers lib (defaulted c))
  unfolding component_error component_probers
  component-AreSound frequency c h =
      let (_, others) =
        or_else-none (systemd_error lib c c.systemd_monitor)
          (or_else lib (http_error lib c frequency c.http_monitor)
            (junit_error lib c c.junit_monitor))
          h in
      let (http, junit) =
        or_else-none (http_error lib c frequency c.http_monitor) (junit_error lib c c.junit_monitor)
          others in
      let d : MonitoringComponent = defaulted c in
      and_then-AreSound d _ _ (http-AreSound c d frequency c.http_monitor http) (
        and_then-AreSound d _ _
          (
            _,
            refl,
            All-append IsSound _ _ (prometheus-IsSound d _) (systemd-IsSound d c.systemd_monitor),
          )
          (junit-AreSound c d c.junit_monitor junit))

  components-AreSound :
      (frequency : ℕ) (cs : List MonitoringComponent)
      → first_error lib frequency cs ≡ none
      → AreSound (
          create_probers lib (
            map
              (with_queries lib (set_default_severity lib))
              (map (with_queries lib (set_default_step lib)) cs)))
  unfolding first_error create_probers
  components-AreSound frequency [] h = ([], refl, tt)
  components-AreSound frequency (c ∷ cs) h =
      let (first, rest) =
        or_else-none (component_error lib frequency c) (first_error lib frequency cs) h in
      and_then-AreSound (defaulted c) _ _ (component-AreSound frequency c first)
        (components-AreSound frequency cs rest)

  -- If a configuration is accepted, its probers can be made without a fatal error; every query and every
  -- prober has a severity, and each JUnit probe has a threshold between one and its number of runs.
  pub validate_config-AreSound :
      (kubeconfig_dir : String) (cfg cfg' : ComponentMonitorConfig)
      → validate_config lib kubeconfig_dir cfg ≡ ok cfg'
      → AreSound (create_probers lib cfg'.components)
  unfolding validate_config set_default_step_values set_default_severity_values
  validate_config-AreSound dir cfg cfg' h = by_frequency (lib.parse_duration cfg.frequency) h
    where
      by_locations :
          (frequency : ℕ) (es : List String)
          → first_error lib frequency cfg.components ≡ none
          → check_locations lib dir (with_defaults lib dir cfg) es ≡ ok cfg'
          → AreSound (create_probers lib cfg'.components)
      by_locations frequency (e ∷ es) f h = cc h
      by_locations frequency [] f h =
          let same : with_defaults lib dir cfg ≡ cfg' = ground (arith, h) in
          subst (λ (x : ComponentMonitorConfig). AreSound (create_probers lib x.components)) same
            (components-AreSound frequency cfg.components f)

      by_error :
          (frequency : ℕ) (e : Option String)
          → first_error lib frequency cfg.components ≡ e
          → check_components lib dir cfg e ≡ ok cfg'
          → AreSound (create_probers lib cfg'.components)
      by_error frequency (some e) f h = cc h
      by_error frequency none f h = by_locations frequency _ f h

      by_frequency :
          (r : Result String ℕ)
          → check_frequency lib dir cfg r ≡ ok cfg'
          → AreSound (create_probers lib cfg'.components)
      by_frequency (err e) h = cc h
      by_frequency (ok frequency) h = by_error frequency _ refl h
