-- ===== src/Monitor/Client/Laws.antt =====
-- What it means that a report was sent.
use ship_status_dash.Base.{String, ◌≡◌, List, ok, arith, ◌↔◌, Result-cases, inl, inr}
use ship_status_dash.Dashboard.Report.{ReportStatus}
use ship_status_dash.Monitor.Client.{
  ReportClient, ClientResponse, Transport, generate_report_request, report_request, send_report,
  report_url, check_response,
}

module _ {S : Type 0} (t : Transport S) where
  -- The encoded report is posted, and the answer is 200.
  pub record IsSent (c : ReportClient) (results : List ReportStatus) (s : S) : Type 0 where
    pub body : String
    pub encoded : t.marshal (generate_report_request c results) ≡ ok body
    pub is_valid : t.check_url (report_url c) ≡ ok tt
    pub response : ClientResponse
    pub answered : (t.send (report_request c body) s).0 ≡ ok response
    pub is_ok : response.status_code ≡ 200

  check_response_iff :
      (r : ClientResponse) (s : S) → ((check_response t r s).0 ≡ ok tt) ↔ (r.status_code ≡ 200)
  check_response_iff r s = ground arith

  -- A report counts as sent exactly if it can be encoded, its URL is valid, and the POST of it is answered
  -- with 200.
  pub send_report_iff :
      (c : ReportClient) (results : List ReportStatus) (s : S)
      → ((send_report t c results s).0 ≡ ok tt) ↔ IsSent c results s
  unfolding send_report
  send_report_iff c results s =
      (forward, λ i. grind (arith, i.encoded, i.is_valid, i.answered, i.is_ok))
    where
      forward : (send_report t c results s).0 ≡ ok tt → IsSent c results s
      forward h = elim (Result-cases (t.marshal (generate_report_request c results))) [
        | inl (body, e) ↦ elim (Result-cases (t.check_url (report_url c))) [
          | inl (tt, u) ↦ elim (Result-cases (t.send (report_request c body) s).0) [
            | inl (r, a) ↦ record {
              body = body;
              encoded = e;
              is_valid = u;
              response = r;
              answered = a;
              is_ok =
                  (check_response_iff r (t.send (report_request c body) s).1).0
                    (ground (arith, h, e, u, a));
            }
            | inr (x, a) ↦ grind (arith, h, e, u, a)
          ]
          | inr (x, u) ↦ grind (arith, h, e, u)
        ]
        | inr (x, e) ↦ grind (arith, h, e)
      ]
