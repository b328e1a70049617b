-- ===== src/Monitor/Config/Loading.antt =====
-- `loadAndValidateConfig` (cmd/component-monitor/main.go): the file and the decoder of YAML are
-- parameters. Warnings and the logged frequency are left out.
use ship_status_dash.Base.{
  ℕ, String, ◌<>◌, Option, none, some, List, [], ◌∷◌, Bytes, Exec, Result, ok, err, pure, raise,
  ◌>>=◌, join,
}
use ship_status_dash.Types.Monitoring.{ComponentMonitorConfig}
use ship_status_dash.Monitor.Config.{
  Libraries, first_error, set_default_step_values, set_default_severity_values,
}
use ship_status_dash.Monitor.Config.Locations.{validate_prometheus_configuration}

module _ (lib : Libraries) (kubeconfig_dir : String) where
  -- `NewAggregate` of no errors is nil; the texts of several are joined.
  abbrev pub check_locations :
      ComponentMonitorConfig → List String → Result String ComponentMonitorConfig
  check_locations cfg [] = ok cfg
  check_locations cfg (e ∷ es) =
      err ("invalid prometheus location configuration: " <> join ", " (e ∷ es))

  abbrev pub with_defaults : ComponentMonitorConfig → ComponentMonitorConfig
  with_defaults cfg = set_default_severity_values lib (set_default_step_values lib cfg)

  abbrev pub check_components :
      ComponentMonitorConfig → Option String → Result String ComponentMonitorConfig
  check_components cfg (some e) = err e
  check_components cfg none =
      check_locations (with_defaults cfg)
        (validate_prometheus_configuration lib kubeconfig_dir (with_defaults cfg).components)

  abbrev pub check_frequency :
      ComponentMonitorConfig → Result String ℕ → Result String ComponentMonitorConfig
  check_frequency cfg (err e) = err ("failed to parse frequency: " <> e)
  check_frequency cfg (ok frequency) =
      check_components cfg (first_error lib frequency cfg.components)

  -- The checks of a decoded configuration, with its defaults.
  unfoldable pub validate_config : ComponentMonitorConfig → Result String ComponentMonitorConfig
  validate_config cfg = check_frequency cfg (lib.parse_duration cfg.frequency)

  abbrev from_result : {S A : Type 0} → Result String A → Exec S String A
  from_result (ok a) = pure a
  from_result (err e) = raise e

  unfoldable pub load_and_validate_config :
      {S : Type 0}
      → Exec S String Bytes
      → (Bytes → Result String ComponentMonitorConfig)
      → Exec S String ComponentMonitorConfig
  load_and_validate_config read_file decode = do
    bytes ← read_file
    cfg ← from_result (decode bytes)
    from_result (validate_config cfg)
