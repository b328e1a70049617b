-- ===== src/Dashboard/Handlers/Status.antt =====
-- The status of components and sub-components (cmd/dashboard/handlers.go). A failure to read the
-- pings is logged, and the ping time is then missing.
use ship_status_dash.Base.{
  ℕ, String, ◌<>◌, Bool, true, false, not, ◌||◌, Option, none, List, [], ◌∷◌, Exec, Result, ok, err,
  pure, attempt, or_raise, ◌>>=◌, ◌==◌, string_eq, nat_eq, if◌then◌else◌, ltb, length, select,
}
use ship_status_dash.Types.Severity.{
  Severity, Status, status_healthy, status_partial, status_suspected, to_status, get_severity_level,
}
use ship_status_dash.Types.Outage.{Outage}
use ship_status_dash.Types.Config.{Component}
use ship_status_dash.Env.{Error}
use ship_status_dash.Dashboard.Services.{Services}
use ship_status_dash.Dashboard.Handlers.Http.{
  ComponentStatus, Stop, Handler, respond_with_error, require_component, require_sub_component,
  status_info, status_list,
}

-- One round of the loop: the more critical severity of two, the first if they are as critical.
unfoldable pub worse : Severity → Severity → Severity
worse worst severity =
    if ltb (get_severity_level worst) (get_severity_level severity) then severity else worst

-- The loop over the confirmed outages, from the most critical severity so far.
unfoldable pub most_critical : Severity → List Outage → Severity
most_critical worst [] = worst
most_critical worst (o ∷ os) = most_critical (worse worst o.severity) os

abbrev pub is_confirmed : Outage → Bool
is_confirmed o = o.confirmed_at.valid

abbrev pub has_unconfirmed : List Outage → Bool
has_unconfirmed [] = false
has_unconfirmed (o ∷ os) = not (is_confirmed o) || has_unconfirmed os

abbrev pub status_from_confirmed : List Outage → Bool → Status
status_from_confirmed (o ∷ os) unconfirmed = to_status (most_critical o.severity (o ∷ os))
status_from_confirmed [] true = status_suspected
status_from_confirmed [] false = status_healthy

unfoldable pub determine_status_from_severity : List Outage → Status
determine_status_from_severity [] = status_healthy
determine_status_from_severity (o ∷ os) =
    status_from_confirmed (select is_confirmed (o ∷ os)) (has_unconfirmed (o ∷ os))

-- The keys of the map `subComponentsWithOutages`.
abbrev pub is_key : String → List String → Bool
is_key k [] = false
is_key k (x ∷ xs) = x == k || is_key k xs

abbrev pub add_key : String → List String → List String
add_key k keys = if is_key k keys then keys else k ∷ keys

unfoldable pub sub_components_with_outages : List Outage → List String
sub_components_with_outages [] = []
sub_components_with_outages (o ∷ os) = add_key o.sub_component_name (sub_components_with_outages os)

unfoldable pub component_status : Component → List Outage → Status
component_status component [] = status_healthy
component_status component (o ∷ os) =
    if ltb (length (sub_components_with_outages (o ∷ os))) (length component.subcomponents)
    then status_partial
    else determine_status_from_severity (o ∷ os)

unfoldable pub sub_component_status : List Outage → Status
sub_component_status [] = status_healthy
sub_component_status (o ∷ os) = determine_status_from_severity (o ∷ os)

abbrev pub ping_or_nil : Result Error (Option ℕ) → Option ℕ
ping_or_nil (ok t) = t
ping_or_nil (err e) = none

module _ {S : Type 0} (v : Services S) where
  unfoldable pub get_sub_component_status_json : Handler S
  get_sub_component_status_json r = do
    component ← require_component v r.component_name
    sub ← require_sub_component v "Sub-component not found" component r.sub_component_name
    outages ←
        or_raise
          (v.outage_manager.get_active_outages_for_sub_component r.component_name
            r.sub_component_name)
          (λ e. respond_with_error 500 "Failed to get subcomponent status")
    ping ← attempt (v.ping_repo.get_last_ping_time r.component_name r.sub_component_name)
    pure (record {
      status_code = 200;
      body = status_info (record {
        component_name = r.component_name <> ("/" <> r.sub_component_name);
        status = sub_component_status outages;
        active_outages = outages;
        last_ping_time = ping_or_nil ping;
      });
    })

  unfoldable pub get_component_status : Component → Exec S Error ComponentStatus
  get_component_status component = do
    outages ← v.outage_manager.get_active_outages_for_component component.slug
    ping ← attempt (v.ping_repo.get_most_recent_ping_time_for_any_sub_component component.slug)
    pure (record {
      component_name = component.name;
      status = component_status component outages;
      active_outages = outages;
      last_ping_time = ping_or_nil ping;
    })

  abbrev status_failure : Error → Stop
  status_failure e = respond_with_error 500 "Failed to get component status"

  unfoldable pub get_component_status_json : Handler S
  get_component_status_json r = do
    component ← require_component v r.component_name
    status ← or_raise (get_component_status component) status_failure
    pure (record { status_code = 200; body = status_info status })

  unfoldable pub all_component_statuses : List Component → Exec S Error (List ComponentStatus)
  all_component_statuses [] = pure []
  all_component_statuses (c ∷ cs) = do
    status ← get_component_status c
    rest ← all_component_statuses cs
    pure (status ∷ rest)

  unfoldable pub get_all_components_status_json : Handler S
  get_all_components_status_json r s =
      (do
        statuses ← or_raise (all_component_statuses (v.config s).components) status_failure
        pure (record { status_code = 200; body = status_list statuses }))
        s
