-- ===== src/Tests/Client.antt =====
-- A report that is sent, and one that the dashboard refuses.
use ship_status_dash.Base.{ℕ, ◌+◌, ◌≡◌, refl, ◌↔◌, [], ◌∷◌, ok, err}
use ship_status_dash.Env.{failed}
use ship_status_dash.Utils.Format.{decimal}
use ship_status_dash.Monitor.Client.{ReportClient, Transport, send_report, unexpected_status}
use ship_status_dash.Monitor.Client.Laws.{IsSent, send_report_iff}
use ship_status_dash.Tests.Fixture.{status}

abbrev answering : ℕ → Transport ℕ
answering code = record {
  marshal = λ r. ok r.component_monitor;
  check_url = λ url. ok tt;
  send = λ request sent. (ok (record { status_code = code; body = ok "denied" }), sent + 1);
}

abbrev reporter : ReportClient
reporter = record { base_url = "https://ship"; name = "monitor"; auth_token = "token" }

send_report_iff_example :
    ((send_report (answering 200) reporter (status ∷ []) 0).0 ≡ ok tt)
    ↔ IsSent (answering 200) reporter (status ∷ []) 0
send_report_iff_example = send_report_iff (answering 200) reporter (status ∷ []) 0

refused_run :
    send_report (answering 403) reporter (status ∷ []) 0
    ≡ (err (failed "unexpected status code: 403, response: denied"), 1)
unfolding send_report unexpected_status decimal
refused_run = refl
