-- ===== src/Dashboard/Server.antt =====
-- The routes of the server (cmd/dashboard/server.go). The router, its handling of cross-origin requests
-- and the files of the frontend are parameters; `look_up` is the route that the router finds for a
-- request among those registered, `none` if it serves a file.
pub mod Safety
pub mod Requests
use ship_status_dash.Base.{
  String, Bytes, Bool, true, false, Option, none, some, List, [], ◌∷◌, ◌++◌, Exec, select, not,
}
use ship_status_dash.Env.{Error}
use ship_status_dash.Dashboard.Services.{Services}
use ship_status_dash.Dashboard.Handlers.Http.{Response, Stop, Handler}
use ship_status_dash.Dashboard.Handlers.Pages.{health_json, get_external_page_html}
use ship_status_dash.Dashboard.Handlers.Status.{
  get_all_components_status_json, get_component_status_json, get_sub_component_status_json,
}
use ship_status_dash.Dashboard.Handlers.Listing.{
  get_components_json, list_tags_json, list_sub_components_json, get_component_info_json,
  get_authenticated_user_json, post_component_monitor_report_json,
}
use ship_status_dash.Dashboard.Handlers.Outages.{
  get_outages_json, get_outage_json, get_sub_component_outages_json, get_outage_audit_logs_json,
  update_outage_json, delete_outage_handler, create_outage_json,
}
use ship_status_dash.Dashboard.Auth.{Incoming, AuthenticationResult, auth_middleware}

pub record Route (S : Type 0) : Type 0 where
  pub path : String
  pub method : String
  pub handler : Handler S
  pub is_protected : Bool

abbrev pub outages_path : String
outages_path = "/api/components/{componentName}/{subComponentName}/outages"

abbrev pub outage_path : String
outage_path = "/api/components/{componentName}/{subComponentName}/outages/{outageId:[0-9]+}"

abbrev pub audit_logs_path : String
audit_logs_path =
    "/api/components/{componentName}/{subComponentName}/outages/{outageId:[0-9]+}/audit-logs"

abbrev pub report_path : String
report_path = "/api/component-monitor/report"

module _ {S : Type 0} (v : Services S) (find_cache : String → Option (Exec S Error Bytes)) where
  abbrev open_route : String → Handler S → Route S
  open_route path handler = record {
    path = path;
    method = "GET";
    handler = handler;
    is_protected = false;
  }

  abbrev protected_route : String → String → Handler S → Route S
  protected_route path method handler = record {
    path = path;
    method = method;
    handler = handler;
    is_protected = true;
  }

  -- The table of `setupRoutes`, in its order.
  unfoldable pub routes : List (Route S)
  routes =
      open_route "/health" (health_json v)
      ∷ open_route "/api/status" (get_all_components_status_json v)
      ∷ open_route "/api/status/{componentName}" (get_component_status_json v)
      ∷ open_route "/api/status/{componentName}/{subComponentName}"
          (get_sub_component_status_json v)
      ∷ open_route "/api/components" (get_components_json v)
      ∷ open_route "/api/tags" (list_tags_json v)
      ∷ open_route "/api/sub-components" (list_sub_components_json v)
      ∷ open_route "/api/components/{componentName}" (get_component_info_json v)
      ∷ open_route "/api/components/{componentName}/outages" (get_outages_json v)
      ∷ open_route outage_path (get_outage_json v)
      ∷ open_route outages_path (get_sub_component_outages_json v)
      ∷ open_route audit_logs_path (get_outage_audit_logs_json v)
      ∷ protected_route outage_path "PATCH" (update_outage_json v)
      ∷ protected_route outage_path "DELETE" (delete_outage_handler v)
      ∷ protected_route outages_path "POST" (create_outage_json v)
      ∷ protected_route "/api/user" "GET" (get_authenticated_user_json v)
      ∷ protected_route report_path "POST" (post_component_monitor_report_json v)
      ∷ open_route "/api/external-pages/{pageSlug}" (get_external_page_html find_cache)
      ∷ []

  -- The routes as registered: those of the protected subrouter come before the others.
  unfoldable pub registered : List (Route S)
  registered =
      select (λ (r : Route S). r.is_protected) (routes)
      ++ select (λ (r : Route S). not r.is_protected) (routes)

-- What the server gets from its environment.
pub record Surroundings (S : Type 0) : Type 0 where
  pub skip_auth : Bool
  pub authenticate : Incoming → AuthenticationResult
  pub look_up : List (Route S) → Incoming → Option (Route S)
  pub static_files : Incoming → Exec S Stop Response
  pub cors : (Incoming → Exec S Stop Response) → Incoming → Exec S Stop Response

module _ {S : Type 0} (w : Surroundings S) where
  abbrev pub handle : Bool → Handler S → Incoming → Exec S Stop Response
  handle true handler i = auth_middleware w.skip_auth w.authenticate handler i
  handle false handler i = handler i.content

  abbrev pub dispatch : Option (Route S) → Incoming → Exec S Stop Response
  dispatch none i = w.static_files i
  dispatch (some route) i = handle route.is_protected route.handler i

  -- The handler that `setupRoutes` returns.
  unfoldable pub serve :
      Services S → (String → Option (Exec S Error Bytes)) → Incoming → Exec S Stop Response
  serve v find_cache i = w.cors (λ j. dispatch (w.look_up (registered v find_cache) j) j) i
