-- ===== src/Manager/Db.antt =====
-- `DBOutageManager` (pkg/outage/outage_manager.go). With no Slack client there is no reporter.
use ship_status_dash.Base.{
  ℕ, String, ◌<>◌, Bool, true, false, Option, none, some, List, [], ◌∷◌, Exec, pure, raise, attempt,
  ◌>>=◌, ◌>>◌,
}
use ship_status_dash.Types.Outage.{Outage, Reason}
use ship_status_dash.Types.Outage.Validate.{validate}
use ship_status_dash.Env.{Error, failed, Env}
use ship_status_dash.Manager.{OutageManager}
use ship_status_dash.Repositories.Outages
use ship_status_dash.Slack.Reporter.{SlackReporter, report_outage, report_outage_update}

module _ {S : Type 0} (env : Env S) where
  -- The loop over the reasons.
  unfoldable pub create_reasons : ℕ → List Reason → Exec S Error (Unit {0})
  create_reasons id [] = pure tt
  create_reasons id (reason ∷ reasons) = do
    Outages.create_reason env (record reason { outage_id = id })
    create_reasons id reasons

  -- The body of the transaction.
  unfoldable pub create_rows : Outage → List Reason → String → Exec S Error Outage
  create_rows o reasons user = do
    o' ← Outages.create_outage env o user
    create_reasons o'.id reasons
    pure o'

  -- A failure of the report is only logged.
  abbrev pub report_created : Option SlackReporter → Outage → Exec S Error Outage
  report_created none o = pure o
  report_created (some reporter) o = do attempt (report_outage env reporter o); pure o

  abbrev pub report_updated : Option SlackReporter → Outage → Outage → Exec S Error Outage
  report_updated none o old = pure o
  report_updated (some reporter) o old = do
    attempt (report_outage_update env reporter o old)
    pure o

  module _ (reporter : Option SlackReporter) where
    abbrev pub create_checked : String × Bool → Outage → List Reason → String → Exec S Error Outage
    create_checked (message, false) o reasons user =
        raise (failed ("validation failed: " <> message))
    create_checked (message, true) o reasons user = do
      o' ← env.db.transaction (create_rows o reasons user)
      report_created reporter o'

    unfoldable pub create_outage : Outage → List Reason → String → Exec S Error Outage
    create_outage o reasons user = create_checked (validate o) o reasons user

    abbrev pub update_checked : String × Bool → Outage → String → Exec S Error Outage
    update_checked (message, false) o user = raise (failed ("validation failed: " <> message))
    update_checked (message, true) o user = do
      old ← Outages.get_outage_by_id env o.component_name o.sub_component_name o.id
      o' ← Outages.save_outage env o user
      report_updated reporter o' old

    unfoldable pub update_outage : Outage → String → Exec S Error Outage
    update_outage o user = update_checked (validate o) o user

    -- The rest is the repository's.
    unfoldable pub db_outage_manager : OutageManager S
    db_outage_manager = record {
      create_outage = create_outage;
      update_outage = update_outage;
      get_outage_by_id = Outages.get_outage_by_id env;
      get_outages_for_sub_component = Outages.get_outages_for_sub_component env;
      get_outages_for_component = Outages.get_outages_for_component env;
      get_active_outages_for_sub_component = Outages.get_active_outages_for_sub_component env;
      get_active_outages_for_component = Outages.get_active_outages_for_component env;
      get_active_outages_created_by = Outages.get_active_outages_created_by env;
      get_active_outages_discovered_from = Outages.get_active_outages_discovered_from env;
      get_outage_audit_logs = Outages.get_outage_audit_logs env;
      delete_outage = Outages.delete_outage env;
    }
