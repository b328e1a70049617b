-- ===== src/Monitor/Client.antt =====
-- The report client (cmd/component-monitor/report-client.go): what it sends to the dashboard, and the
-- errors that it returns. The encoder of JSON, the making of a request and its transport are parameters.
pub mod Laws
use ship_status_dash.Base.{
  ℕ, String, ◌<>◌, List, [], ◌∷◌, Exec, Result, ok, err, pure, raise, or_raise, ◌>>=◌, ◌==◌, nat_eq,
  if◌then◌else◌,
}
use ship_status_dash.Env.{Error, failed}
use ship_status_dash.Utils.Format.{decimal}
use ship_status_dash.Dashboard.Report.{ReportStatus, ReportRequest}
use ship_status_dash.Monitor.Http.{error_text}

pub record ReportClient : Type 0 where
  pub base_url : String
  pub name : String
  pub auth_token : String

pub record ClientRequest : Type 0 where
  pub method : String
  pub url : String
  pub body : String
  pub headers : List (String × String)

-- A response with its status code, and its body once somebody reads it.
pub record ClientResponse : Type 0 where
  pub status_code : ℕ
  pub body : Result Error String

-- `json.Marshal`, the check of a URL in `http.NewRequest`, and `http.Client.Do`.
pub record Transport (S : Type 0) : Type 0 where
  pub marshal : ReportRequest → Result Error String
  pub check_url : String → Result Error (Unit {0})
  pub send : ClientRequest → Exec S Error ClientResponse

unfoldable pub generate_report_request : ReportClient → List ReportStatus → ReportRequest
generate_report_request c results = record { component_monitor = c.name; statuses = results }

abbrev pub wrapped : String → Error → Error
wrapped message e = failed (message <> (": " <> error_text e))

abbrev pub report_url : ReportClient → String
report_url c = c.base_url <> "/api/component-monitor/report"

unfoldable pub report_request : ReportClient → String → ClientRequest
report_request c body = record {
  method = "POST";
  url = report_url c;
  body = body;
  headers =
      ("Content-Type", "application/json") ∷ ("Authorization", "Bearer " <> c.auth_token) ∷ [];
}

unfoldable pub unexpected_status : ClientResponse → Error
unexpected_status r = elim r.body [
  | ok text ↦
      failed ("unexpected status code: " <> (decimal r.status_code <> (", response: " <> text)))
  | err e ↦ failed (
      "unexpected status code: "
      <> (decimal r.status_code <> (", failed to read response body: " <> error_text e)))
]

module _ {S : Type 0} (t : Transport S) where
  abbrev lift : {A : Type 0} → Result Error A → Exec S Error A
  lift r s = (r, s)

  abbrev pub check_response : ClientResponse → Exec S Error (Unit {0})
  check_response r s = if r.status_code == 200 then (ok tt, s) else (err (unexpected_status r), s)

  unfoldable pub send_report : ReportClient → List ReportStatus → Exec S Error (Unit {0})
  send_report c results = do
    body ←
        or_raise (lift (t.marshal (generate_report_request c results)))
          (wrapped "failed to marshal request")
    _ ← or_raise (lift (t.check_url (report_url c))) (wrapped "failed to create request")
    response ← or_raise (t.send (report_request c body)) (wrapped "failed to send request")
    check_response response
