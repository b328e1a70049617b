-- ===== src/Dashboard/Handlers/Listing.antt =====
-- The handlers that list the configuration, that take a monitor's report, and that tell users who
-- they are (cmd/dashboard/handlers.go).
use ship_status_dash.Base.{
  String, ◌<>◌, Bool, true, false, not, ◌&&◌, Option, none, some, List, [], ◌∷◌, ◌++◌, Exec, ok,
  pure, raise, require, raise_if, or_raise, ◌>>=◌, ◌>>◌, ◌==◌, string_eq, if◌then◌else◌, map,
  select,
}
use ship_status_dash.Types.Config.{
  SubComponent, Component, DashboardConfig, get_component_by_slug, get_sub_component_by_slug,
}
use ship_status_dash.Dashboard.Services.{Services}
use ship_status_dash.Dashboard.Report.{ReportStatus, ReportRequest, validate_request, process}
use ship_status_dash.Dashboard.Handlers.Http.{
  SubComponentListItem, Stop, Handler, respond_with_error, require_component, component_info,
  component_list, tag_list, sub_component_list, authenticated_user, report_processed,
}
use ship_status_dash.Dashboard.Handlers.Access.{is_user_authorized_for_component}

abbrev pub has_tag : String → List String → Bool
has_tag tag [] = false
has_tag tag (t ∷ ts) = if t == tag then true else has_tag tag ts

abbrev list_item : Component → SubComponent → SubComponentListItem
list_item component sub = record { component_name = component.name; sub_component = sub }

-- The items of one component that the filters let through.
unfoldable pub items_of : (slug tag team : String) → Component → List SubComponentListItem
items_of slug tag team component =
    if not (slug == "") && not (component.slug == slug)
    then []
    else if not (team == "") && not (team == component.ship_team)
    then []
    else if tag == ""
    then map (list_item component) component.subcomponents
    else map (list_item component)
        (select (λ (s : SubComponent). has_tag tag s.tags) component.subcomponents)

unfoldable pub list_items : (slug tag team : String) → List Component → List SubComponentListItem
list_items slug tag team [] = []
list_items slug tag team (c ∷ cs) = items_of slug tag team c ++ list_items slug tag team cs

abbrev known_sub_component : ReportStatus → Option SubComponent → Option Stop
known_sub_component status (some sub) = none
known_sub_component status none = some (
    respond_with_error 400 (
      "Sub-component not found: " <> (status.component_slug <> ("/" <> status.sub_component_slug))))

abbrev known_component : ReportStatus → Option Component → Option Stop
known_component status none =
    some (respond_with_error 400 ("Component not found: " <> status.component_slug))
known_component status (some component) =
    known_sub_component status (get_sub_component_by_slug component status.sub_component_slug)

-- The response to the first status whose component or sub-component is unknown.
unfoldable pub unknown_status : DashboardConfig → List ReportStatus → Option Stop
unknown_status cfg [] = none
unknown_status cfg (status ∷ statuses) =
    elim (known_component status (get_component_by_slug cfg status.component_slug)) [
      | some stop ↦ some stop
      | none ↦ unknown_status cfg statuses
    ]

abbrev stop_if : {S : Type 0} → Option Stop → Exec S Stop (Unit {0})
stop_if none = pure tt
stop_if (some stop) = raise stop

abbrev pub is_nil : {A : Type 0} → List A → Bool
is_nil [] = true
is_nil (x ∷ xs) = false

module _ {S : Type 0} (v : Services S) where
  unfoldable pub list_tags_json : Handler S
  list_tags_json r s = (ok (record { status_code = 200; body = tag_list (v.config s).tags }), s)

  unfoldable pub list_sub_components_json : Handler S
  list_sub_components_json r s = (
    ok (record {
      status_code = 200;
      body =
          sub_component_list
            (list_items r.component_filter r.tag_filter r.team_filter (v.config s).components);
    }),
    s,
  )

  unfoldable pub get_components_json : Handler S
  get_components_json r s =
      (ok (record { status_code = 200; body = component_list (v.config s).components }), s)

  unfoldable pub get_component_info_json : Handler S
  get_component_info_json r = do
    component ← require_component v r.component_name
    pure (record { status_code = 200; body = component_info component })

  abbrev require_known : List ReportStatus → Exec S Stop (Unit {0})
  require_known statuses s = stop_if (unknown_status (v.config s) statuses) s

  abbrev require_permitted : ReportRequest → String → Exec S Stop (Unit {0})
  require_permitted req account s =
      raise_if (not (is_nil (validate_request (v.config s) req account)))
        (respond_with_error 400 "Invalid request") s

  unfoldable pub post_component_monitor_report_json : Handler S
  post_component_monitor_report_json r = do
    req ← require r.report (respond_with_error 400 "Invalid request body")
    raise_if (req.component_monitor == "") (respond_with_error 400 "component_monitor is required")
    raise_if (is_nil req.statuses) (respond_with_error 400 "statuses cannot be empty")
    require_known req.statuses
    account ← require r.user (respond_with_error 401 "no Authenticated ServiceAccount user found")
    require_permitted req account
    or_raise (process v req) (λ e. respond_with_error 500 "Failed to process report")
    pure (record { status_code = 200; body = report_processed })

  unfoldable pub get_authenticated_user_json : Handler S
  get_authenticated_user_json r = do
    user ← require r.user (respond_with_error 401 "No Authenticated user found")
    λ s. (
      ok (record {
        status_code = 200;
        body = authenticated_user user (
            map (λ (c : Component). c.slug)
              (select (is_user_authorized_for_component v s user) (v.config s).components));
      }),
      s,
    )
