-- ===== src/Monitor/Config/Locations.antt =====
-- The locations and queries of Prometheus (cmd/component-monitor/prometheus.go).
use ship_status_dash.Base.{
  ℕ, String, ◌<>◌, Bool, true, false, not, ◌&&◌, ◌||◌, Option, none, some, List, [], ◌∷◌, ◌++◌,
  Result, ok, err, ◌==◌, string_eq, if◌then◌else◌,
}
use ship_status_dash.Types.Monitoring.{
  PrometheusLocation, PrometheusQuery, PrometheusMonitor, MonitoringComponent,
}
use ship_status_dash.Monitor.Config.{Libraries, at_component}

abbrev pub in_cluster_config_name : String
in_cluster_config_name = "in-cluster"

abbrev pub message_if : Bool → String → List String
message_if true message = message ∷ []
message_if false message = []

abbrev pub set : String → Bool
set text = not (text == "")

unfoldable pub get_prometheus_location_key : PrometheusLocation → String
get_prometheus_location_key loc =
    if set loc.url
    then loc.url
    else if loc.cluster == in_cluster_config_name
    then loc.cluster <> ("/" <> (loc.namespace <> ("/" <> loc.service)))
    else loc.cluster <> ("/" <> (loc.namespace <> ("/" <> loc.route)))

unfoldable pub build_in_cluster_prometheus_url : PrometheusLocation → String
build_in_cluster_prometheus_url loc =
    "http://" <> (loc.service <> ("." <> (loc.namespace <> ".svc.cluster.local:9090")))

-- What is said of a location with a cluster.
unfoldable pub cluster_errors : String → MonitoringComponent → PrometheusLocation → List String
cluster_errors kubeconfig_dir c loc =
    message_if (not (set loc.namespace)) (
      "prometheusLocation namespace is required when cluster is set for component "
      <> at_component c)
    ++ (if loc.cluster == in_cluster_config_name
        then message_if (not (set loc.service)) (
            "prometheusLocation service is required when cluster is in-cluster for component "
            <> at_component c)
          ++ message_if (set loc.route) (
              "prometheusLocation route must not be set when cluster is in-cluster for component "
              <> at_component c)
        else message_if (not (set loc.route)) (
            "prometheusLocation route is required when cluster is set for component "
            <> at_component c)
          ++ (message_if (set loc.service) (
                "prometheusLocation service must not be set when cluster is not in-cluster for component "
                <> at_component c)
              ++ message_if (kubeconfig_dir == "") (
                  "kubeconfig-dir is required when using cluster-based prometheusLocation for cluster "
                  <> (loc.cluster
                      <> " (use \"in-cluster\" as cluster name to use in-cluster config)"))))

module _ (lib : Libraries) (kubeconfig_dir : String) where
  abbrev parse_error : String → Result String ℕ → List String
  parse_error text (ok d) = []
  parse_error text (err e) = (text <> (": " <> e)) ∷ []

  abbrev at_query : MonitoringComponent → PrometheusQuery → String
  at_query c q = at_component c <> (", query " <> lib.quote q.query)

  unfoldable pub query_errors : MonitoringComponent → PrometheusQuery → List String
  query_errors c q =
      message_if (set q.step && q.duration == "")
        ("step cannot be set without duration for component " <> at_query c q)
      ++ ((if set q.duration
            then parse_error ("failed to parse duration for component " <> at_query c q)
                (lib.parse_duration q.duration)
            else [])
          ++ ((if set q.step
                then parse_error ("failed to parse step for component " <> at_query c q)
                    (lib.parse_duration q.step)
                else [])
              ++ message_if (q.severity == "")
                  ("severity is required for component " <> at_query c q)))

  unfoldable pub queries_errors : MonitoringComponent → List PrometheusQuery → List String
  queries_errors c [] = []
  queries_errors c (q ∷ qs) = query_errors c q ++ queries_errors c qs

  -- The file `filepath.Join(kubeconfigDir, cluster+".config")`.
  abbrev kubeconfig_path : PrometheusLocation → String
  kubeconfig_path loc = kubeconfig_dir <> ("/" <> (loc.cluster <> ".config"))

  unfoldable pub location_errors : MonitoringComponent → PrometheusLocation → List String
  location_errors c loc =
      message_if (set loc.url && set loc.cluster) (
        "prometheusLocation cannot have both url and cluster set for component "
        <> (at_component c <> " (they are mutually exclusive)"))
      ++ (message_if (set loc.url && (set loc.namespace || set loc.route || set loc.service)) (
            "prometheusLocation cannot have url set together with namespace, route, or service for component "
            <> (at_component c
                <> " (url is mutually exclusive with cluster/namespace/route/service)"))
          ++ ((if set loc.cluster then cluster_errors kubeconfig_dir c loc else [])
              ++ (message_if (set loc.url && not (lib.is_url loc.url)) (
                    "prometheusLocation url must be a valid URL for component "
                    <> (at_component c <> (", got: " <> loc.url)))
                  ++ message_if
                      (set loc.cluster
                        && set kubeconfig_dir
                        && not (loc.cluster == in_cluster_config_name)
                        && not (lib.has_file (kubeconfig_path loc)))
                      ("kubeconfig file not found for cluster " <> loc.cluster))))

  abbrev pub monitor_errors : MonitoringComponent → Option PrometheusMonitor → List String
  monitor_errors c none = []
  monitor_errors c (some m) =
      if not (set m.prometheus_location.url) && not (set m.prometheus_location.cluster)
      then ("prometheusLocation must have either url or cluster set for component "
          <> at_component c)
        ∷ []
      else location_errors c m.prometheus_location ++ queries_errors c m.queries

  -- The errors of all components; none is Go's nil error.
  unfoldable pub validate_prometheus_configuration : List MonitoringComponent → List String
  validate_prometheus_configuration [] = []
  validate_prometheus_configuration (c ∷ cs) =
      monitor_errors c c.prometheus_monitor ++ validate_prometheus_configuration cs
