-- ===== src/Dashboard/Handlers/Http.antt =====
-- Requests, responses and what every handler does with them (cmd/dashboard/handlers.go). The JSON
-- decoder is the standard library's: a request carries the decoded body, `none` if it was refused.

use ship_status_dash.Base.{
  ℕ, Bytes, ◌+◌, ◌*◌, ◌-◌, String, code, Bool, ◌&&◌, Option, none, some, List, Exec, require,
  or_raise, leb, if◌then◌else◌, ◌==◌, string_eq,
}
use ship_status_dash.Types.Severity.{Status}
use ship_status_dash.Types.Outage.{NullTime, Outage, OutageAuditLog}
use ship_status_dash.Types.Config.{
  Component, SubComponent, Tag, get_component_by_slug, get_sub_component_by_slug,
}
use ship_status_dash.Env.{Error, record_not_found}
use ship_status_dash.Dashboard.Services.{Services}
use ship_status_dash.Dashboard.Report.{ReportRequest}

-- `ComponentStatus` (pkg/types/status.go).
pub record ComponentStatus : Type 0 where
  pub component_name : String
  pub status : Status
  pub active_outages : List Outage
  pub last_ping_time : Option ℕ

-- `SubComponentListItem` (pkg/types/api.go).
pub record SubComponentListItem : Type 0 where
  pub component_name : String
  pub sub_component : SubComponent

-- `UpsertOutageRequest` (pkg/types/api.go).
pub record UpsertOutageRequest : Type 0 where
  pub severity : Option String
  pub start_time : Option ℕ
  pub end_time : Option NullTime
  pub description : Option String
  pub discovered_from : Option String
  pub confirmed : Option Bool
  pub triage_notes : Option String

pub data Body : Type 0 where
  error_message : String → Body
  outage_info : Outage → Body
  outage_list : List Outage → Body
  audit_log_list : List OutageAuditLog → Body
  component_info : Component → Body
  component_list : List Component → Body
  tag_list : List Tag → Body
  status_info : ComponentStatus → Body
  status_list : List ComponentStatus → Body
  sub_component_list : List SubComponentListItem → Body
  authenticated_user : String → List String → Body
  report_processed : Body
  no_content : Body
  health : ℕ → Body
  html : Bytes → Body

pub record Response : Type 0 where
  pub status_code : ℕ
  pub body : Body

-- How a handler ends early: with a response, or by a panic.
pub data Stop : Type 0 where
  respond : Response → Stop
  panicked : String → Stop

pub record Request : Type 0 where
  pub component_name : String
  pub sub_component_name : String
  pub outage_id : String
  pub page_slug : String
  -- `GetUserFromContext`.
  pub user : Option String
  pub upsert : Option UpsertOutageRequest
  pub report : Option ReportRequest
  -- The query parameters `componentName`, `tag` and `team`.
  pub component_filter : String
  pub tag_filter : String
  pub team_filter : String

abbrev pub respond_with_error : ℕ → String → Stop
respond_with_error status message =
    respond (record { status_code = status; body = error_message message })

abbrev pub Handler : Type 0 → Type 0
Handler S = Request → Exec S Stop Response

-- The digits of `strconv.ParseUint(s, 10, 32)`: a number of 32 bits, or an error.
parse_digits : ℕ → String → Option ℕ
parse_digits n String.[] = some n
parse_digits n (String.◌∷◌ c s) =
    let m = n * 10 + (code c - 48) in
    let rest = parse_digits m s in
    if leb 48 (code c) && leb (code c) 57 && leb m 4294967295 then rest else none

unfoldable pub parse_uint : String → Option ℕ
unfolding parse_digits
parse_uint s = if s == "" then none else parse_digits 0 s

module _ {S : Type 0} (v : Services S) where
  abbrev pub require_user : Request → Exec S Stop String
  require_user r = require r.user (respond_with_error 401 "no active user found")

  abbrev pub require_component : String → Exec S Stop Component
  require_component name s =
      require (get_component_by_slug (v.config s) name)
        (respond_with_error 404 "Component not found") s

  -- The handlers spell the message in two ways.
  abbrev pub require_sub_component : String → Component → String → Exec S Stop SubComponent
  require_sub_component message component name =
      require (get_sub_component_by_slug component name) (respond_with_error 404 message)

  abbrev pub require_outage_id : Request → Exec S Stop ℕ
  require_outage_id r =
      require (parse_uint r.outage_id) (respond_with_error 400 "Invalid outage ID")

  abbrev pub get_outage_error : Error → Stop
  get_outage_error record_not_found = respond_with_error 404 "Outage not found"
  get_outage_error e = respond_with_error 500 "Failed to get outage"

  abbrev pub require_outage : Request → ℕ → Exec S Stop Outage
  require_outage r id =
      or_raise (v.outage_manager.get_outage_by_id r.component_name r.sub_component_name id)
        get_outage_error
