-- ===== src/Monitor/Http.antt =====
-- The HTTP probe (cmd/component-monitor/http-prober.go). A request is a parameter: its status code,
-- or an error.
use ship_status_dash.Base.{
  ℕ, String, ◌<>◌, none, some, [], ◌∷◌, Result, ok, err, ◌==◌, nat_eq, string_eq, if◌then◌else◌,
}
use ship_status_dash.Types.Severity.{Severity, status_healthy, severity_down, to_status}
use ship_status_dash.Env.{Error, failed}
use ship_status_dash.Utils.Format.{decimal}
use ship_status_dash.Monitor.{ProbeResult}

pub record HttpProber : Type 0 where
  pub component_slug : String
  pub sub_component_slug : String
  pub url : String
  pub expected_status_code : ℕ
  pub confirm_after : ℕ
  pub severity : Severity

unfoldable pub new_http_prober : String → String → String → ℕ → ℕ → Severity → HttpProber
new_http_prober component sub url expected after severity = record {
  component_slug = component;
  sub_component_slug = sub;
  url = url;
  expected_status_code = expected;
  confirm_after = after;
  severity = if severity == "" then severity_down else severity;
}

abbrev pub error_text : Error → String
error_text (failed message) = message
error_text _ = "error"

unfoldable pub format_error_result : HttpProber → Error → ProbeResult
format_error_result p e = record {
  status = record {
    component_slug = p.component_slug;
    sub_component_slug = p.sub_component_slug;
    status = "";
    reasons = [];
  };
  probe_type = "http";
  error = some (
      failed (
        "error running HTTP probe, for component: "
        <> (p.component_slug
            <> (" sub-component "
                <> (p.sub_component_slug
                    <> (". url: " <> (p.url <> (". error: " <> error_text e))))))));
}

unfoldable pub make_status : HttpProber → ℕ → ProbeResult
make_status p code = record {
  status = record {
    component_slug = p.component_slug;
    sub_component_slug = p.sub_component_slug;
    status = if code == p.expected_status_code then status_healthy else to_status p.severity;
    reasons =
        record {
          outage_id = 0;
          type = "http";
          check = p.url;
          results =
              "Status code "
              <> (decimal code <> (" (expected " <> (decimal p.expected_status_code <> ")")));
        }
        ∷ [];
  };
  probe_type = "http";
  error = none;
}

module _ {S : Type 0} (get : String → S → Result Error ℕ × S)
    (wait : ℕ → S → Result Error (Unit {0}) × S) where
  abbrev second_result : HttpProber → Result Error ℕ × S → ProbeResult × S
  second_result p (ok code, s) = (make_status p code, s)
  second_result p (err e, s) = (format_error_result p e, s)

  abbrev after_wait : HttpProber → Result Error (Unit {0}) × S → ProbeResult × S
  after_wait p (err e, s) = (format_error_result p e, s)
  after_wait p (ok _, s) = second_result p (get p.url s)

  abbrev first_result : HttpProber → Result Error ℕ × S → ProbeResult × S
  first_result p (err e, s) = (format_error_result p e, s)
  first_result p (ok code, s) =
      if code == p.expected_status_code
      then (make_status p code, s)
      else after_wait p (wait p.confirm_after s)

  -- `Probe`: the result that it sends. `wait` fails if the context is canceled first.
  unfoldable pub probe : HttpProber → S → ProbeResult × S
  probe p s = first_result p (get p.url s)
