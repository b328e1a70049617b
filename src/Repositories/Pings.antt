-- ===== src/Repositories/Pings.antt =====
-- `gormComponentPingRepository` (pkg/repositories/component_ping_repository.go).
use ship_status_dash.Base.{
  ℕ, String, ◌&&◌, Option, none, some, [], Exec, Result, ok, err, pure, raise, attempt, ◌>>=◌, ◌>>◌,
  ◌==◌, string_eq,
}
use ship_status_dash.Types.Outage.{ComponentReportPing}
use ship_status_dash.Env.{Error, record_not_found, duplicated_key, Query, Env}

abbrev pub pings_of : String → String → Query ComponentReportPing
pings_of component sub = record {
  filter = λ p. p.component_name == component && p.sub_component_name == sub;
  order = none;
  preload = [];
}

module _ {S : Type 0} (env : Env S) where
  abbrev save_time : ComponentReportPing → ℕ → Exec S Error (Unit {0})
  save_time ping timestamp = do env.db.pings.save (record ping { time = timestamp }); pure tt

  -- Another goroutine created the record between the look-up and the create.
  abbrev after_race :
      String → String → ℕ → Result Error ComponentReportPing → Exec S Error (Unit {0})
  after_race component sub timestamp (ok existing) = save_time existing timestamp
  after_race component sub timestamp (err e) = raise duplicated_key

  abbrev after_create :
      String → String → ℕ → Result Error ComponentReportPing → Exec S Error (Unit {0})
  after_create component sub timestamp (ok _) = pure tt
  after_create component sub timestamp (err duplicated_key) = do
    again ← attempt (env.db.pings.first (pings_of component sub))
    after_race component sub timestamp again
  after_create component sub timestamp (err e) = raise e

  abbrev after_first :
      String → String → ℕ → Result Error ComponentReportPing → Exec S Error (Unit {0})
  after_first component sub timestamp (err record_not_found) = do
    created ← attempt (
        env.db.pings.create (record {
          id = 0;
          component_name = component;
          sub_component_name = sub;
          time = timestamp;
        }))
    after_create component sub timestamp created
  after_first component sub timestamp (err e) = raise e
  after_first component sub timestamp (ok existing) = save_time existing timestamp

  unfoldable pub upsert_component_report_ping : String → String → ℕ → Exec S Error (Unit {0})
  upsert_component_report_ping component sub timestamp = do
    found ← attempt (env.db.pings.first (pings_of component sub))
    after_first component sub timestamp found

  -- A missing record is no error.
  abbrev time_of : Result Error ComponentReportPing → Exec S Error (Option ℕ)
  time_of (ok ping) = pure (some ping.time)
  time_of (err record_not_found) = pure none
  time_of (err e) = raise e

  unfoldable pub get_last_ping_time : String → String → Exec S Error (Option ℕ)
  get_last_ping_time component sub = do
    found ← attempt (env.db.pings.first (pings_of component sub))
    time_of found

  unfoldable pub get_most_recent_ping_time_for_any_sub_component : String → Exec S Error (Option ℕ)
  get_most_recent_ping_time_for_any_sub_component component = do
    found ← attempt (
        env.db.pings.first (record {
          filter = λ p. p.component_name == component;
          order = some (λ p. p.time);
          preload = [];
        }))
    time_of found
