-- ===== src/Dashboard/Services/Lawful.antt =====
-- What the parts rely on: a lawful manager, and that pings and the clock leave the outages alone.
use ship_status_dash.Base.{ℕ, String, ◌≡◌}
use ship_status_dash.Env.Lawful.{Tables, Keeps}
use ship_status_dash.Manager.{IsOutageManager}
use ship_status_dash.Dashboard.Services.{Services}

pub record AreLawful {S : Type 0} (v : Services S) (view : S → Tables) : Type 0 where
  pub manager : IsOutageManager v.outage_manager view v.now
  pub now_keeps : (s : S) → view (v.now s).1 ≡ view s
  pub upsert_keeps :
      (c sub : String) (t : ℕ) → Keeps view (v.ping_repo.upsert_component_report_ping c sub t)
  pub recent_ping_keeps :
      (c : String) → Keeps view (v.ping_repo.get_most_recent_ping_time_for_any_sub_component c)
  pub last_ping_keeps : (c sub : String) → Keeps view (v.ping_repo.get_last_ping_time c sub)
