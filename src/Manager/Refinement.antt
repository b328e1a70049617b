-- ===== src/Manager/Refinement.antt =====
-- The database manager keeps the interface's promises over a lawful world: each write happens whole
-- and is entered in the audit log, or changes nothing, and Slack has no part in that.
use ship_status_dash.Base.{
  String, ◌≡◌, ◌≢◌, ◌∙◌, refl, ap, subst, Bool, true, false, Option, none, some, List, ok, err,
  arith, bind-eq-ok, ◌>>=◌,
}
use ship_status_dash.Types.Outage.{Outage, Reason}
use ship_status_dash.Types.Outage.Validate.{validate}
use ship_status_dash.Env.{Error, Env}
use ship_status_dash.Env.Lawful.{Tables, IsLawful}
use ship_status_dash.Repositories.Outages
use ship_status_dash.Repositories.Outages.{user_context}
use ship_status_dash.Repositories.Hooks.{outage_hooks}
use ship_status_dash.Slack.Reporter.{SlackReporter}
use ship_status_dash.Slack.Laws.{report_outage-Keeps, report_outage_update-Keeps}
use ship_status_dash.Manager.{IsOutageManager, Appended, Replaced}
use ship_status_dash.Manager.Db.{
  create_rows, report_created, report_updated, create_outage, update_outage, create_checked,
  update_checked, db_outage_manager,
}
use ship_status_dash.Manager.Writes.{
  repo_save_ok, repo_delete_ok, Appended-of_eq, Replaced-of_eq, create_rows_ok,
  get_outage_by_id-Keeps, get_outage_by_id_row, active_for_sub_component_rows,
  active_for_component_rows, active_for_sub_component-Keeps, active_for_component-Keeps,
  repo_save_err,
}

module _ {S : Type 0} (env : Env S) (view : S → Tables) (law : IsLawful env view) where
  report_created_lem :
      (reporter : Option SlackReporter) (o : Outage) (s : S)
      → ((report_created env reporter o s).0 ≡ ok o)
        × (view (report_created env reporter o s).1 ≡ view s)
  report_created_lem none o s = (refl, refl)
  report_created_lem (some r) o s = (refl, report_outage-Keeps env r view law o s)

  report_updated_lem :
      (reporter : Option SlackReporter) (o old : Outage) (s : S)
      → ((report_updated env reporter o old s).0 ≡ ok o)
        × (view (report_updated env reporter o old s).1 ≡ view s)
  report_updated_lem none o old s = (refl, refl)
  report_updated_lem (some r) o old s = (refl, report_outage_update-Keeps env r view law o old s)

  module _ (reporter : Option SlackReporter) where
    create_checked_ok :
        (v : String × Bool) (o o' : Outage) (reasons : List Reason) (user : String) (s : S)
        → (create_checked env reporter v o reasons user s).0 ≡ ok o'
        → Appended view o o' reasons user s (create_checked env reporter v o reasons user s).1
    create_checked_ok (message, false) o o' reasons user s h = cc
    create_checked_ok (message, true) o o' reasons user s h =
        let m = create_rows env o reasons user in
        let (row, t, e, h1) =
          bind-eq-ok (env.db.transaction m) (λ row. report_created env reporter row) s
            (ap (λ r. (r, (create_checked env reporter (message, true) o reasons user s).1)) h) in
        let (body, committed) = law.transaction_ok m row s (ap (λ r. r.0) e) in
        let (returned, kept) = report_created_lem reporter row t in
        let same : row ≡ o' = cc returned in
        let kept' : view (create_checked env reporter (message, true) o reasons user s).1
            ≡ view (m s).1 =
          ground (arith, committed, kept, e, h1) in
        subst
          (λ x.
            Appended view o x reasons user s
              (create_checked env reporter (message, true) o reasons user s).1)
          same
          (Appended-of_eq env view law o row reasons user s (m s).1 _ kept'
            (create_rows_ok env view law o row reasons user s body))

    create_checked_err :
        (v : String × Bool) (o : Outage) (reasons : List Reason) (user : String) (x : Error) (s : S)
        → (create_checked env reporter v o reasons user s).0 ≡ err x
        → view (create_checked env reporter v o reasons user s).1 ≡ view s
    create_checked_err (message, false) o reasons user x s h = refl
    create_checked_err (message, true) o reasons user x s h =
        grind (arith, law.transaction_err, report_created_lem)

    update_checked_ok :
        (v : String × Bool) (o o' : Outage) (user : String) (s : S)
        → (update_checked env reporter v o user s).0 ≡ ok o'
        → Replaced view o o' user s (update_checked env reporter v o user s).1
    update_checked_ok (message, false) o o' user s h = cc
    update_checked_ok (message, true) o o' user s h =
        let get = Outages.get_outage_by_id env o.component_name o.sub_component_name o.id in
        let final = (update_checked env reporter (message, true) o user s).1 in
        let (old, t, e, h1) =
          bind-eq-ok get
            (λ old. do o' ← Outages.save_outage env o user; report_updated env reporter o' old) s
            (ap (λ r. (r, final)) h) in
        let (same_id, _, _, _, other) =
          get_outage_by_id_row env view law o.component_name o.sub_component_name o.id s old
            (ap (λ r. r.0) e) in
        let numbered : o.id ≢ 0 = λ zero. other (same_id ∙ zero) in
        let (row, u, e2, h2) =
          bind-eq-ok (Outages.save_outage env o user) (λ o'. report_updated env reporter o' old) t
            h1 in
        let (returned, kept) = report_updated_lem reporter row old u in
        let same : row ≡ o' = cc (returned, h2) in
        let before : view s ≡ view t = ground (arith, get_outage_by_id-Keeps env view law o s, e) in
        let after : view final ≡ view (Outages.save_outage env o user t).1 =
          ground (arith, kept, e, e2, h2) in
        subst (λ x. Replaced view o x user s final) same
          (Replaced-of_eq env view law o row user t s (Outages.save_outage env o user t).1 final
            before after (repo_save_ok env view law o row user t numbered (ap (λ r. r.0) e2)))

    update_checked_err :
        (v : String × Bool) (o : Outage) (user : String) (x : Error) (s : S)
        → (update_checked env reporter v o user s).0 ≡ err x
        → view (update_checked env reporter v o user s).1 ≡ view s
    update_checked_err (message, false) o user x s h = refl
    update_checked_err (message, true) o user x s h = grind (
      arith,
      get_outage_by_id-Keeps env view law o,
      repo_save_err env view law,
      report_updated_lem,
    )

    -- Over a lawful world the database manager keeps every promise of the interface, with a Slack
    -- reporter or without: a create, update or delete that returns an error has changed none of the
    -- outages, the reasons and the audit log; one that succeeds has changed the one row of the outages,
    -- a create with all its reasons, and has added the one entry of the audit log that names the
    -- operation, the user and the outage; a get by id returns a row with the id, the component and the
    -- sub-component; and each of the four queries for active outages returns the matching rows, each as
    -- often as the table holds it, where active means without an end, or, for those of a sub-component
    -- or of a component, with an end after the clock's time.
    pub db_outage_manager-IsOutageManager :
        IsOutageManager (db_outage_manager env reporter) view env.now
    unfolding db_outage_manager create_outage update_outage Outages.get_outage_by_id
        Outages.get_outages_for_sub_component Outages.get_outages_for_component
        Outages.get_outage_audit_logs Outages.get_active_outages_created_by
        Outages.get_active_outages_discovered_from Outages.delete_outage
    db_outage_manager-IsOutageManager = record {
      create_ok = λ o o' reasons user s. create_checked_ok (validate o) o o' reasons user s;
      create_err = λ o reasons user e s. create_checked_err (validate o) o reasons user e s;
      update_ok = λ o o' user s. update_checked_ok (validate o) o o' user s;
      update_err = λ o user e s. update_checked_err (validate o) o user e s;
      delete_ok = repo_delete_ok env view law;
      delete_err = λ o user e s. law.delete_err (outage_hooks env) (user_context user) o e s;
      by_id_keeps = λ c sub id s. law.first_keeps _ s;
      by_id_row = λ c sub id s o h.
          let (same, component, sub_component, row, _) =
            get_outage_by_id_row env view law c sub id s o h in
          (same, component, sub_component, row);
      for_sub_component_keeps = λ c sub s. law.find_keeps _ s;
      for_component_keeps = λ c subs s. law.find_keeps _ s;
      active_for_sub_component_keeps = active_for_sub_component-Keeps env view law;
      active_for_sub_component_rows = active_for_sub_component_rows env view law;
      active_for_component_rows = active_for_component_rows env view law;
      active_for_component_keeps = active_for_component-Keeps env view law;
      audit_logs_keep = λ id s. law.audit_find_keeps _ s;
      created_by_keeps = λ c sub by s. law.find_keeps _ s;
      created_by_rows = λ c sub by s l. law.find_rows _ s l;
      discovered_from_keeps = λ c sub from s. law.find_keeps _ s;
      discovered_from_rows = λ c sub from s l. law.find_rows _ s l;
    }
