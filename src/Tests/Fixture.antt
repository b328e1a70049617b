-- ===== src/Tests/Fixture.antt =====
-- A configuration with one component of two sub-components, the services over the world in memory,
-- an outage, a report and requests.
use ship_status_dash.Base.{refl, true, false, ◌&&◌, none, some, [], ◌∷◌, ok, ◌==◌, string_eq, Char}
use ship_status_dash.Types.Severity.{severity_down, severity_degraded, status_degraded}
use ship_status_dash.Types.Outage.{null_time, Outage}
use ship_status_dash.Types.Config.{Monitoring, SubComponent, Owner, Component, DashboardConfig}
use ship_status_dash.Env.Lawful.{Tables}
use ship_status_dash.Repositories.Pings
use ship_status_dash.Slack.Reporter.{SlackReporter, new_slack_reporter}
use ship_status_dash.Manager.Db.{db_outage_manager}
use ship_status_dash.Manager.Refinement.{db_outage_manager-IsOutageManager}
use ship_status_dash.Dashboard.Services.{Services, gorm_ping_repository}
use ship_status_dash.Dashboard.Services.Lawful.{AreLawful}
use ship_status_dash.Dashboard.Report.{ReportStatus, ReportRequest}
use ship_status_dash.Dashboard.Handlers.Http.{UpsertOutageRequest, Request}
use ship_status_dash.Tests.World.{now, view, world}
use ship_status_dash.Tests.Lawful.{world-IsLawful}

abbrev pub monitoring : Monitoring
monitoring = record { frequency = "1m"; component_monitor = "app-ci-monitor"; auto_resolve = true }

abbrev pub tide : SubComponent
tide = record {
  name = "Tide";
  slug = "tide";
  tags = "merging" ∷ [];
  monitoring = some monitoring;
  requires_confirmation = false;
  slack_reporting = [];
}

abbrev pub deck : SubComponent
deck = record {
  name = "Deck";
  slug = "deck";
  tags = [];
  monitoring = none;
  requires_confirmation = true;
  slack_reporting = [];
}

abbrev pub owner : Owner
owner = record { rover_group = "test-platform"; service_account = "monitor-sa"; user = "ada" }

abbrev pub prow : Component
prow = record {
  name = "Prow";
  slug = "prow";
  ship_team = "Test Platform";
  slack_reporting = record { channel = "#ops"; severity = none } ∷ [];
  subcomponents = tide ∷ deck ∷ [];
  owners = owner ∷ [];
}

abbrev pub config : DashboardConfig
config = record { components = prow ∷ []; tags = [] }

abbrev pub reporter : SlackReporter
reporter = new_slack_reporter (λ (c : Char). c) "https://status.example" "https://slack.example"

abbrev pub services : Services Tables
services = record {
  outage_manager = db_outage_manager (world config) (some reporter);
  ping_repo = gorm_ping_repository (world config);
  config = λ s. config;
  now = (world config).now;
  is_user_in_group = λ s user group. user == "grace" && group == "test-platform";
  parse_duration = λ text. ok 60000000000;
  format_duration = λ d. "1m0s";
}

pub services-AreLawful : AreLawful services view
unfolding gorm_ping_repository Pings.upsert_component_report_ping Pings.get_last_ping_time
    Pings.get_most_recent_ping_time_for_any_sub_component
services-AreLawful = record {
  manager =
      db_outage_manager-IsOutageManager (world config) view (world-IsLawful config) (some reporter);
  now_keeps = λ s. refl;
  upsert_keeps = λ c sub t s. refl;
  recent_ping_keeps = λ c s. refl;
  last_ping_keeps = λ c sub s. refl;
}

abbrev pub outage : Outage
outage = record {
  id = 7;
  component_name = "prow";
  sub_component_name = "tide";
  severity = severity_down;
  start_time = 3000000000;
  end_time = null_time;
  description = "Merging stopped";
  discovered_from = "frontend";
  created_by = "ada";
  confirmed_at = record { time = 4000000000; valid = true };
  triage_notes = none;
  reasons = [];
  slack_threads = [];
}

abbrev pub tables : Tables
tables = record { outages = outage ∷ []; audit_logs = []; reasons = [] }

abbrev pub status : ReportStatus
status = record {
  component_slug = "prow";
  sub_component_slug = "tide";
  status = status_degraded;
  reasons = record { outage_id = 0; type = "http"; check = "GET /"; results = "503" } ∷ [];
}

abbrev pub report : ReportRequest
report = record { component_monitor = "app-ci-monitor"; statuses = status ∷ [] }

abbrev pub upsert : UpsertOutageRequest
upsert = record {
  severity = some severity_degraded;
  start_time = none;
  end_time = none;
  description = some " Merging is slow ";
  discovered_from = none;
  confirmed = some false;
  triage_notes = some "watching";
}

abbrev pub request : Request
request = record {
  component_name = "prow";
  sub_component_name = "tide";
  outage_id = "7";
  page_slug = "";
  user = some "grace";
  upsert = some upsert;
  report = some report;
  component_filter = "";
  tag_filter = "";
  team_filter = "";
}

-- A world without outages.
abbrev pub no_tables : Tables
no_tables = record { outages = []; audit_logs = []; reasons = [] }

-- The outage that the report opens in it.
abbrev pub opened : Outage
opened = record {
  id = 1;
  component_name = "prow";
  sub_component_name = "tide";
  severity = severity_degraded;
  start_time = now;
  end_time = null_time;
  description = "Component monitor detected outage";
  discovered_from = "component-monitor";
  created_by = "app-ci-monitor";
  confirmed_at = record { time = now; valid = true };
  triage_notes = none;
  reasons = [];
  slack_threads = [];
}
