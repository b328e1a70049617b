-- ===== src/Dashboard/Services.antt =====
-- What the parts of the dashboard are given: the outage manager, the ping repository (the interface
-- `ComponentPingRepository` of pkg/repositories), the configuration and the clock.
pub mod Lawful
use ship_status_dash.Base.{ℕ, String, Bool, Option, Exec, Result, ok}
use ship_status_dash.Types.Config.{DashboardConfig}
use ship_status_dash.Env.{Error, Env}
use ship_status_dash.Manager.{OutageManager}
use ship_status_dash.Manager.Db.{db_outage_manager}
use ship_status_dash.Repositories.Pings
use ship_status_dash.Slack.Reporter.{SlackReporter}

pub record ComponentPingRepository (S : Type 0) : Type 0 where
  pub upsert_component_report_ping : String → String → ℕ → Exec S Error (Unit {0})
  pub get_last_ping_time : String → String → Exec S Error (Option ℕ)
  pub get_most_recent_ping_time_for_any_sub_component : String → Exec S Error (Option ℕ)

pub record Services (S : Type 0) : Type 0 where
  pub outage_manager : OutageManager S
  pub ping_repo : ComponentPingRepository S
  pub config : S → DashboardConfig
  pub now : S → ℕ × S
  -- `GroupMembershipCache.IsUserInGroup` on the cache as it is.
  pub is_user_in_group : S → String → String → Bool
  -- `time.ParseDuration`, in nanoseconds; a negative duration is outside of the model.
  pub parse_duration : String → Result Error ℕ
  -- `Duration.Round(time.Second).String()`.
  pub format_duration : ℕ → String

module _ {S : Type 0} where
  unfoldable pub gorm_ping_repository : Env S → ComponentPingRepository S
  gorm_ping_repository env = record {
    upsert_component_report_ping = Pings.upsert_component_report_ping env;
    get_last_ping_time = Pings.get_last_ping_time env;
    get_most_recent_ping_time_for_any_sub_component =
        Pings.get_most_recent_ping_time_for_any_sub_component env;
  }

  -- `time.Now()`.
  abbrev pub read_clock : {E : Type 0} → Services S → Exec S E ℕ
  read_clock v s = let (t, s') = v.now s in (ok t, s')
