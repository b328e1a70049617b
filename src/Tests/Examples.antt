-- ===== src/Tests/Examples.antt =====
-- Each theorem on the program at inputs of the fixture where its hypotheses hold.
use ship_status_dash.Base.{ℕ, suc, arith, Result}
use ship_status_dash.Base.{
  String, ◌≡◌, refl, ◌≢◌, ◌↔◌, ◌⊎◌, true, none, some, [], ◌∷◌, ok, All, Any, select,
  count-le-length, Char, trim_space,
}
use mathlib.Core.List.{foldl}
use ship_status_dash.Types.Severity.{
  severity_down, severity_degraded, status_partial, to_status, is_valid_severity,
}
use ship_status_dash.Types.Outage.{Outage, null_time}
use ship_status_dash.Types.Outage.Validate.{validate, IsAcceptable, validate_iff}
use ship_status_dash.Utils.Slugify.{slugify}
use ship_status_dash.Utils.Slugify.Laws.{IsSlug, slugify-IsSlug, slugify_idem}
use ship_status_dash.Repositories.Outages.{reported_by}
use ship_status_dash.Manager.{IsOutageManager}
use ship_status_dash.Manager.Db.{db_outage_manager}
use ship_status_dash.Manager.Refinement.{db_outage_manager-IsOutageManager}
use ship_status_dash.Dashboard.Report.{validate_request, process}
use ship_status_dash.Dashboard.Report.Validation.{IsPermitted, validate_request_iff}
use ship_status_dash.Dashboard.Report.Invariant.{AtMostOne, process-AtMostOne}
use ship_status_dash.Dashboard.Absent.{check_for_absent_reports}
use ship_status_dash.Dashboard.Absent.Invariant.{found_on, AtMostOneAbsence, check-AtMostOneAbsence}
use ship_status_dash.Dashboard.Absent.Effects.{after_component, check-every}
use ship_status_dash.Dashboard.Handlers.Access.{
  is_user_authorized_for_component, Admits, authorized_iff,
}
use ship_status_dash.Dashboard.Handlers.Outages.{
  create_outage_json, update_outage_json, delete_outage_handler, apply_update,
}
use ship_status_dash.Dashboard.Handlers.Rows.{
  AreUpdated, AreDistinct, update_outage_json-AreUpdated,
}
use ship_status_dash.Dashboard.Handlers.Authorization.{
  MayAct, Refused, create-MayAct, update-MayAct, delete-MayAct,
}
use ship_status_dash.Dashboard.Handlers.Status.{
  is_confirmed, determine_status_from_severity, sub_components_with_outages, component_status,
}
use ship_status_dash.Dashboard.Handlers.StatusLaws.{IsWorst, determine-confirmed}
use ship_status_dash.Dashboard.Handlers.PartialLaws.{component_status-untouched}
use ship_status_dash.Monitor.Merge.{merge_statuses, keep_some}
use ship_status_dash.Monitor.Order.{is_for}
use ship_status_dash.Monitor.Grouping.{probes_of, merge_statuses-own}
use ship_status_dash.Env.{Error, failed}
use ship_status_dash.Tests.Fixture.{status}
use ship_status_dash.Dashboard.Pages.{PageCache, PageResponse, get_locked, get}
use ship_status_dash.Dashboard.Pages.Laws.{Served, IsBounded, get_locked-Served, get-IsBounded}
use ship_status_dash.Monitor.{ProbeResult}
use ship_status_dash.Monitor.Merge.{merge_statuses_for_sub_component}
use ship_status_dash.Tests.World.{view, world}
use ship_status_dash.Tests.Lawful.{world-IsLawful}
use ship_status_dash.Tests.Fixture.{
  prow, config, reporter, services, services-AreLawful, outage, tables, report, upsert, request,
}

db_outage_manager-IsOutageManager_example :
    IsOutageManager (db_outage_manager (world config) (some reporter)) view (world config).now
db_outage_manager-IsOutageManager_example =
    db_outage_manager-IsOutageManager (world config) view (world-IsLawful config) (some reporter)

process-AtMostOne_example : AtMostOne (view (process services report tables).1).outages
process-AtMostOne_example =
    process-AtMostOne services view services-AreLawful report tables
      (λ c sub by. count-le-length (reported_by c sub by) (view tables).outages)

check-AtMostOneAbsence_example :
    AtMostOneAbsence (view (check_for_absent_reports services tables).1).outages
check-AtMostOneAbsence_example =
    check-AtMostOneAbsence services view services-AreLawful tables
      (λ c sub. count-le-length (found_on c sub) (view tables).outages)

check-every_example :
    check_for_absent_reports services tables
    ≡ (ok tt, foldl (after_component services) tables config.components)
check-every_example = check-every services tables

create-MayAct_example :
    MayAct services tables request ⊎ Refused (create_outage_json services request) tables
create-MayAct_example = create-MayAct services tables request

update-MayAct_example :
    MayAct services tables request ⊎ Refused (update_outage_json services request) tables
update-MayAct_example = update-MayAct services tables request

delete-MayAct_example :
    MayAct services tables request ⊎ Refused (delete_outage_handler services request) tables
delete-MayAct_example = delete-MayAct services tables request

authorized_iff_example :
    (is_user_authorized_for_component services tables "grace" prow ≡ true)
    ↔ Any (Admits services tables "grace") prow.owners
authorized_iff_example = authorized_iff services tables "grace" prow

validate_request_iff_example :
    (validate_request config report "monitor-sa" ≡ [])
    ↔ All (IsPermitted config report.component_monitor "monitor-sa") report.statuses
validate_request_iff_example = validate_request_iff config report "monitor-sa"

component_status_partial : component_status prow (outage ∷ []) ≡ status_partial
unfolding component_status sub_components_with_outages
component_status_partial = refl

component_status-untouched_example :
    Any (λ sub. All (λ o. o.sub_component_name ≢ sub.slug) (outage ∷ [])) prow.subcomponents
component_status-untouched_example =
    component_status-untouched prow (outage ∷ []) (refl, (refl, tt)) component_status_partial

determine-confirmed_example :
    (severity : String) × IsWorst severity (select is_confirmed (outage ∷ []))
    × (determine_status_from_severity (outage ∷ []) ≡ to_status severity)
determine-confirmed_example = determine-confirmed (outage ∷ []) (λ e. cc e)

abbrev updated : Outage
updated = record outage {
  severity = severity_degraded;
  description = "Merging is slow";
  confirmed_at = null_time;
  triage_notes = some "watching";
}

apply_update_run : apply_update services upsert outage tables ≡ (ok updated, tables)
unfolding apply_update is_valid_severity trim_space
apply_update_run = refl

tables-AreDistinct : AreDistinct (view tables).outages
tables-AreDistinct k = ground arith

update_outage_json-AreUpdated_example :
    AreUpdated "prow" "tide"
      (view tables).outages
      (view (update_outage_json services request tables).1).outages
update_outage_json-AreUpdated_example =
    update_outage_json-AreUpdated services view services-AreLawful request tables tables-AreDistinct

validate_iff_example : (validate outage ≡ ("", true)) ↔ IsAcceptable outage
validate_iff_example = validate_iff outage

slugify-IsSlug_example : IsSlug (slugify (λ (c : Char). c) " build-farm: 01 ")
slugify-IsSlug_example = slugify-IsSlug (λ c. c) " build-farm: 01 "

slugify_idem_example :
    slugify (λ (c : Char). c) (slugify (λ c. c) " build-farm: 01 ")
    ≡ slugify (λ c. c) " build-farm: 01 "
slugify_idem_example =
    slugify_idem (λ c. c) (record { on_slug_char = λ c h. refl; on_hyphen = refl })
      " build-farm: 01 "

down_is_valid : is_valid_severity severity_down ≡ true
unfolding is_valid_severity
down_is_valid = refl

abbrev probed : ProbeResult
probed = record { status = status; probe_type = "http"; error = none }

abbrev not_probed : ProbeResult
not_probed = record {
  status = record status { status = ""; reasons = [] };
  probe_type = "systemd";
  error = some (failed "no bus");
}

merge_statuses-own_example :
    select (is_for "prow" "tide") (merge_statuses (not_probed ∷ probed ∷ []))
    ≡ keep_some
        (merge_statuses_for_sub_component "prow" "tide"
          (probes_of "prow" "tide" (not_probed ∷ probed ∷ [])))
        []
merge_statuses-own_example = merge_statuses-own "prow" "tide" (not_probed ∷ probed ∷ [])

abbrev cached : PageCache
cached = record { content = 60 ∷ 62 ∷ []; fetched_at = 0; ttl = 10 }

abbrev clock_of : ℕ → ℕ × ℕ
clock_of t = (t, suc t)

abbrev unavailable : ℕ → Result Error PageResponse × ℕ
unavailable t = (ok (record { status_code = 503; read = λ n. ok [] }), t)

get_locked-Served_example : Served cached (get_locked clock_of unavailable cached 100)
get_locked-Served_example = get_locked-Served clock_of unavailable cached 100

get-IsBounded_example : IsBounded (get clock_of unavailable (λ p. p) cached 100).1
get-IsBounded_example =
    get-IsBounded clock_of unavailable (λ p. p) cached 100 (λ p b. b) (omega arith)
