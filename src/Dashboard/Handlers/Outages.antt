-- ===== src/Dashboard/Handlers/Outages.antt =====
-- The handlers that create, update, delete and show outages (cmd/dashboard/handlers.go).
use ship_status_dash.Base.{
  ℕ, String, Bool, true, false, not, ◌||◌, Option, none, some, [], Exec, pure, require, raise_if,
  or_raise, ◌>>=◌, ◌>>◌, ◌==◌, nat_eq, string_eq, if◌then◌else◌, trim_space, map,
}
use ship_status_dash.Types.Severity.{is_valid_severity}
use ship_status_dash.Types.Outage.{NullTime, null_time, Outage}
use ship_status_dash.Types.Outage.Validate.{validate}
use ship_status_dash.Types.Config.{SubComponent}
use ship_status_dash.Env.{Error}
use ship_status_dash.Dashboard.Services.{Services, read_clock}
use ship_status_dash.Dashboard.Handlers.Http.{
  UpsertOutageRequest, Response, Stop, panicked, Request, Handler, respond_with_error, require_user,
  require_component, require_sub_component, require_outage_id, require_outage, outage_info,
  outage_list, audit_log_list, no_content,
}
use ship_status_dash.Dashboard.Handlers.Access.{require_authorized}

abbrev pub text_or_empty : Option String → String
text_or_empty none = ""
text_or_empty (some t) = t

abbrev pub trimmed_or_empty : Option String → String
trimmed_or_empty none = ""
trimmed_or_empty (some t) = trim_space t

abbrev pub is_true : Option Bool → Bool
is_true none = false
is_true (some b) = b

abbrev pub require_body : {S A : Type 0} → Option A → Exec S Stop A
require_body o = require o (respond_with_error 400 "Invalid request body")

-- The guard `Validate` in front of a write.
abbrev pub require_valid : {S : Type 0} → String × Bool → Exec S Stop (Unit {0})
require_valid (message, valid) = raise_if (not valid) (respond_with_error 400 message)

-- The outage of a create request, before it is confirmed.
unfoldable pub requested_outage : Request → String → UpsertOutageRequest → ℕ → Outage
requested_outage r user u start = record {
  id = 0;
  component_name = r.component_name;
  sub_component_name = r.sub_component_name;
  severity = text_or_empty u.severity;
  start_time = start;
  end_time = null_time;
  description = trimmed_or_empty u.description;
  discovered_from = text_or_empty u.discovered_from;
  created_by = user;
  confirmed_at = null_time;
  triage_notes = u.triage_notes;
  reasons = [];
  slack_threads = [];
}

abbrev pub confirm_now : Outage → ℕ → Outage
confirm_now o now = record o { confirmed_at = record { time = now; valid = true } }

abbrev pub set_start_time : Option ℕ → Outage → Outage
set_start_time none o = o
set_start_time (some t) o = if not (t == o.start_time) then record o { start_time = t } else o

abbrev pub bool_eq : Bool → Bool → Bool
bool_eq true b = b
bool_eq false b = not b

abbrev pub set_end_time : Option NullTime → Outage → Outage
set_end_time none o = o
set_end_time (some t) o =
    if not (bool_eq t.valid o.end_time.valid) || not (t.time == o.end_time.time)
    then record o { end_time = t }
    else o

abbrev pub set_description : Option String → Outage → Outage
set_description none o = o
set_description (some t) o = record o { description = trim_space t }

abbrev pub set_triage_notes : Option String → Outage → Outage
set_triage_notes none o = o
set_triage_notes (some t) o = record o { triage_notes = some t }

module _ {S : Type 0} (v : Services S) where
  abbrev pub confirm_if : Bool → Outage → Exec S Stop Outage
  confirm_if false o = pure o
  confirm_if true o = do now ← read_clock v; pure (confirm_now o now)

  abbrev pub failure : String → Error → Stop
  failure message e = respond_with_error 500 message

  -- What the handler does once the user is known to be authorized.
  abbrev pub create_authorized : Request → String → SubComponent → Exec S Stop Response
  create_authorized r user sub = do
    u ← require_body r.upsert
    start ← require u.start_time (panicked "nil pointer dereference")
    o ←
        confirm_if (is_true u.confirmed || not sub.requires_confirmation)
          (requested_outage r user u start)
    require_valid (validate o)
    o' ← or_raise (v.outage_manager.create_outage o [] user) (failure "Failed to create outage")
    pure (record { status_code = 201; body = outage_info o' })

  unfoldable pub create_outage_json : Handler S
  create_outage_json r = do
    user ← require_user v r
    component ← require_component v r.component_name
    sub ← require_sub_component v "Sub-Component not found" component r.sub_component_name
    require_authorized v user component
    create_authorized r user sub

  abbrev pub set_severity : Option String → Outage → Exec S Stop Outage
  set_severity none o = pure o
  set_severity (some s) o = do
    raise_if (not (is_valid_severity s))
        (respond_with_error 400 "Invalid severity. Must be one of: Down, Degraded, Suspected")
    pure (record o { severity = s })

  abbrev pub set_confirmed : Option Bool → Outage → Exec S Stop Outage
  set_confirmed none o = pure o
  set_confirmed (some true) o =
      if not o.confirmed_at.valid then (do now ← read_clock v; pure (confirm_now o now)) else pure o
  set_confirmed (some false) o =
      if o.confirmed_at.valid then pure (record o { confirmed_at = null_time }) else pure o

  -- The changes that a request asks for, in the handler's order.
  unfoldable pub apply_update : UpsertOutageRequest → Outage → Exec S Stop Outage
  apply_update u o = do
    o1 ← set_severity u.severity o
    o2 ←
        set_confirmed u.confirmed
          (set_description u.description (set_end_time u.end_time (set_start_time u.start_time o1)))
    pure (set_triage_notes u.triage_notes o2)

  abbrev pub update_authorized : Request → String → ℕ → Exec S Stop Response
  update_authorized r user id = do
    o ← require_outage v r id
    u ← require_body r.upsert
    changed ← apply_update u o
    require_valid (validate changed)
    saved ←
        or_raise (v.outage_manager.update_outage changed user) (failure "Failed to update outage")
    pure (record { status_code = 200; body = outage_info saved })

  unfoldable pub update_outage_json : Handler S
  update_outage_json r = do
    user ← require_user v r
    id ← require_outage_id v r
    component ← require_component v r.component_name
    sub ← require_sub_component v "Sub-Component not found" component r.sub_component_name
    require_authorized v user component
    update_authorized r user id

  unfoldable pub get_outage_json : Handler S
  get_outage_json r = do
    component ← require_component v r.component_name
    sub ← require_sub_component v "Sub-component not found" component r.sub_component_name
    id ← require_outage_id v r
    o ← require_outage v r id
    pure (record { status_code = 200; body = outage_info o })

  abbrev pub delete_authorized : Request → String → Exec S Stop Response
  delete_authorized r user = do
    id ← require_outage_id v r
    o ← require_outage v r id
    or_raise (v.outage_manager.delete_outage o user) (failure "Failed to delete outage")
    pure (record { status_code = 204; body = no_content })

  unfoldable pub delete_outage_handler : Handler S
  delete_outage_handler r = do
    user ← require_user v r
    component ← require_component v r.component_name
    sub ← require_sub_component v "Sub-component not found" component r.sub_component_name
    require_authorized v user component
    delete_authorized r user

  unfoldable pub get_outage_audit_logs_json : Handler S
  get_outage_audit_logs_json r = do
    id ← require_outage_id v r
    o ← require_outage v r id
    logs ←
        or_raise (v.outage_manager.get_outage_audit_logs o.id)
          (failure "Failed to get outage audit logs")
    pure (record { status_code = 200; body = audit_log_list logs })

  unfoldable pub get_outages_json : Handler S
  get_outages_json r = do
    component ← require_component v r.component_name
    os ←
        or_raise
          (v.outage_manager.get_outages_for_component r.component_name
            (map (λ (s : SubComponent). s.slug) component.subcomponents))
          (failure "Failed to get outages")
    pure (record { status_code = 200; body = outage_list os })

  unfoldable pub get_sub_component_outages_json : Handler S
  get_sub_component_outages_json r = do
    component ← require_component v r.component_name
    sub ← require_sub_component v "Sub-component not found" component r.sub_component_name
    os ←
        or_raise
          (v.outage_manager.get_outages_for_sub_component r.component_name r.sub_component_name)
          (failure "Failed to get outages")
    pure (record { status_code = 200; body = outage_list os })
