-- ===== src/Dashboard/Handlers/ReadOnly.antt =====
-- The handlers that only show things leave the outages and the audit log alone.
use ship_status_dash.Base.{String, ◌≡◌, refl, Bytes, Option, some, List, [], ◌∷◌, Exec, arith}
use ship_status_dash.Types.Config.{Component}
use ship_status_dash.Env.{Error}
use ship_status_dash.Env.Lawful.{Tables}
use ship_status_dash.Dashboard.Services.{Services}
use ship_status_dash.Dashboard.Services.Lawful.{AreLawful}
use ship_status_dash.Dashboard.Handlers.Http.{Request}
use ship_status_dash.Dashboard.Handlers.Pages.{health_json, get_external_page_html}
use ship_status_dash.Dashboard.Handlers.Status.{
  get_component_status, all_component_statuses, get_all_components_status_json,
  get_component_status_json, get_sub_component_status_json,
}
use ship_status_dash.Dashboard.Handlers.Listing.{
  get_components_json, list_tags_json, list_sub_components_json, get_component_info_json,
  get_authenticated_user_json,
}
use ship_status_dash.Dashboard.Handlers.Outages.{
  get_outages_json, get_outage_json, get_sub_component_outages_json, get_outage_audit_logs_json,
}

-- An action that may end in any way, and leaves the tables as they were.
abbrev pub Leaves : {S E A : Type 0} → (S → Tables) → Exec S E A → Type 0
Leaves {S} view m = (s : S) → view (m s).1 ≡ view s

module _ {S : Type 0} (v : Services S) (view : S → Tables) (law : AreLawful v view) where
  pub health_json-Leaves : (r : Request) → Leaves view (health_json v r)
  unfolding health_json
  health_json-Leaves r s = grind (arith, law.now_keeps)

  pub get_components_json-Leaves : (r : Request) → Leaves view (get_components_json v r)
  unfolding get_components_json
  get_components_json-Leaves r s = refl

  pub list_tags_json-Leaves : (r : Request) → Leaves view (list_tags_json v r)
  unfolding list_tags_json
  list_tags_json-Leaves r s = refl

  pub list_sub_components_json-Leaves : (r : Request) → Leaves view (list_sub_components_json v r)
  unfolding list_sub_components_json
  list_sub_components_json-Leaves r s = refl

  pub get_component_info_json-Leaves : (r : Request) → Leaves view (get_component_info_json v r)
  unfolding get_component_info_json
  get_component_info_json-Leaves r s = grind arith

  pub get_outage_json-Leaves : (r : Request) → Leaves view (get_outage_json v r)
  unfolding get_outage_json
  get_outage_json-Leaves r s = grind (arith, law.manager.by_id_keeps)

  pub get_outages_json-Leaves : (r : Request) → Leaves view (get_outages_json v r)
  unfolding get_outages_json
  get_outages_json-Leaves r s = grind (arith, law.manager.for_component_keeps)

  pub get_outage_audit_logs_json-Leaves :
      (r : Request) → Leaves view (get_outage_audit_logs_json v r)
  unfolding get_outage_audit_logs_json
  get_outage_audit_logs_json-Leaves r s =
      grind (arith, law.manager.by_id_keeps, law.manager.audit_logs_keep)

  pub get_sub_component_outages_json-Leaves :
      (r : Request) → Leaves view (get_sub_component_outages_json v r)
  unfolding get_sub_component_outages_json
  get_sub_component_outages_json-Leaves r s = grind (arith, law.manager.for_sub_component_keeps)

  pub get_sub_component_status_json-Leaves :
      (r : Request) → Leaves view (get_sub_component_status_json v r)
  unfolding get_sub_component_status_json
  get_sub_component_status_json-Leaves r s =
      grind (arith, law.manager.active_for_sub_component_keeps, law.last_ping_keeps)

  pub get_component_status-Leaves : (c : Component) → Leaves view (get_component_status v c)
  unfolding get_component_status
  get_component_status-Leaves c s =
      grind (arith, law.manager.active_for_component_keeps, law.recent_ping_keeps)

  pub get_component_status_json-Leaves : (r : Request) → Leaves view (get_component_status_json v r)
  unfolding get_component_status_json
  get_component_status_json-Leaves r s = grind (arith, get_component_status-Leaves)

  pub all_component_statuses-Leaves :
      (cs : List Component) → Leaves view (all_component_statuses v cs)
  unfolding all_component_statuses
  all_component_statuses-Leaves [] s = refl
  all_component_statuses-Leaves (c ∷ cs) s =
      grind (arith, get_component_status-Leaves, all_component_statuses-Leaves cs)

  pub get_all_components_status_json-Leaves :
      (r : Request) → Leaves view (get_all_components_status_json v r)
  unfolding get_all_components_status_json
  get_all_components_status_json-Leaves r s = grind (arith, all_component_statuses-Leaves)

  pub get_authenticated_user_json-Leaves :
      (r : Request) → Leaves view (get_authenticated_user_json v r)
  unfolding get_authenticated_user_json
  get_authenticated_user_json-Leaves r s = grind arith

  module _ (find_cache : String → Option (Exec S Error Bytes))
      (pages : (slug : String) (get : Exec S Error Bytes)
        → find_cache slug ≡ some get
        → Leaves view get) where
    pub get_external_page_html-Leaves :
        (r : Request) → Leaves view (get_external_page_html find_cache r)
    unfolding get_external_page_html
    get_external_page_html-Leaves r s = grind (arith, pages r.page_slug)
