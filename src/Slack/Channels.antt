-- ===== src/Slack/Channels.antt =====
-- The channels that are configured for an outage (pkg/outage/slack_report.go).
use ship_status_dash.Base.{
  String, Option, none, some, List, [], ◌∷◌, ◌==◌, string_eq, leb, if◌then◌else◌,
}
use ship_status_dash.Types.Severity.{Severity, severity_suspected, get_severity_level}
use ship_status_dash.Types.Config.{
  SlackReportingConfig, DashboardConfig, Component, SubComponent, get_component_by_slug,
  get_sub_component_by_slug, get_slack_reporting,
}

abbrev reporting_of_sub_component : Component → Option SubComponent → List SlackReportingConfig
reporting_of_sub_component component none = []
reporting_of_sub_component component (some sub) = get_slack_reporting (some component) (some sub)

abbrev reporting_of_component : Option Component → String → List SlackReportingConfig
reporting_of_component none sub = []
reporting_of_component (some component) sub =
    reporting_of_sub_component component (get_sub_component_by_slug component sub)

unfoldable pub get_slack_reporting_for_sub_component :
    DashboardConfig → String → String → List SlackReportingConfig
get_slack_reporting_for_sub_component cfg component sub =
    reporting_of_component (get_component_by_slug cfg component) sub

abbrev or_suspected : Option Severity → Severity
or_suspected none = severity_suspected
or_suspected (some s) = if s == "" then severity_suspected else s

unfoldable pub get_effective_severity : SlackReportingConfig → Severity
get_effective_severity config = or_suspected config.severity

unfoldable pub filter_channels_by_severity : List SlackReportingConfig → Severity → List String
filter_channels_by_severity [] severity = []
filter_channels_by_severity (config ∷ reporting) severity =
    let rest = filter_channels_by_severity reporting severity in
    if leb (get_severity_level (get_effective_severity config)) (get_severity_level severity)
    then config.channel ∷ rest
    else rest
