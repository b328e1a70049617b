-- ===== src/Monitor/Junit.antt =====
-- The JUnit probe (cmd/component-monitor/junit-prober.go): the prober with its settings, what it gets
-- from its surroundings, and the places where a job keeps its artifacts.
pub mod Suites
pub mod Builds
pub mod Verdict
pub mod Probe
use ship_status_dash.Base.{
  ℕ, String, ◌<>◌, Bool, false, Option, none, some, List, [], ◌∷◌, Result, join, trim_space,
  trim_right_char, ◌==◌, nat_eq, string_eq, if◌then◌else◌, ltb,
}
use ship_status_dash.Types.Severity.{Severity, severity_degraded}
use ship_status_dash.Types.Outage.{Reason}
use ship_status_dash.Env.{failed}
use ship_status_dash.Utils.Format.{decimal}
use ship_status_dash.Monitor.{ProbeResult}

-- An error of `fetchText` that carries a status code, or any other with its text.
pub data JunitError : Type 0 where
  http_status_error : ℕ → String → JunitError
  message : String → JunitError

abbrev pub error_text : JunitError → String
error_text (http_status_error code url) = "HTTP " <> (decimal code <> (" from " <> url))
error_text (message text) = text

abbrev pub is_http_404 : JunitError → Bool
is_http_404 (http_status_error code url) = code == 404
is_http_404 (message text) = false

abbrev pub wrap : String → JunitError → JunitError
wrap text e = message (text <> error_text e)

pub record JunitProberSettings : Type 0 where
  pub artifact_url_style : String
  pub gcs_web_base_url : String
  pub history_runs : ℕ
  pub failed_runs_threshold : ℕ

pub record JunitProber : Type 0 where
  pub component_slug : String
  pub sub_component_slug : String
  pub bucket : String
  pub job_name : String
  pub max_age : ℕ
  pub severity : Severity
  pub settings : JunitProberSettings

pub record JunitCase : Type 0 where
  pub name : String
  pub has_failure : Bool
  pub has_error : Bool

pub record JunitSuite : Type 0 where
  pub tests : ℕ
  pub test_cases : List JunitCase

pub record JunitDoc : Type 0 where
  pub suites : List JunitSuite
  pub tests : ℕ
  pub test_cases : List JunitCase

pub record ListPage : Type 0 where
  pub prefixes : List String
  pub next_page_token : String

-- An entry of the map `signatureCount`.
pub record SignatureCount : Type 0 where
  pub signature : String
  pub runs : ℕ

-- A response: its status code, and a reader of at most so many bytes of its body.
pub record TextResponse : Type 0 where
  pub status_code : ℕ
  pub read : ℕ → Result String String

-- What the probe calls: the HTTP client, the clock, the decoders of JSON and XML, the encoder of URLs,
-- the formats of durations, the comparison of decimal numbers (`none` if one of the texts is none),
-- and the orders in which Go goes through a map. A timestamp that is missing or negative is 0.
pub record Surroundings (S : Type 0) : Type 0 where
  pub get : String → S → Result String TextResponse × S
  pub now : S → ℕ × S
  pub decode_started : String → Result String ℕ
  pub decode_list : String → Result String ListPage
  pub decode_xml : String → Result String JunitDoc
  pub encode_query : List (String × String) → String
  pub path_escape : String → String
  pub format_age : ℕ → String
  pub format_duration : ℕ → String
  pub exceeds : String → String → Option Bool
  pub range_ids : List String → List String
  pub range_counts : List SignatureCount → List SignatureCount

abbrev default_gcs_bucket : String
default_gcs_bucket = "test-platform-results"

abbrev pub style_gcs : String
style_gcs = "gcs"

abbrev pub style_gcs_web : String
style_gcs_web = "gcsweb"

abbrev default_gcs_web_base : String
default_gcs_web_base = "https://gcsweb-ci.apps.ci.l2s4.p1.openshiftapps.com"

abbrev pub prow_object_latest_build : String
prow_object_latest_build = "latest-build.txt"

abbrev or_default : String → String → String
or_default text other = if text == "" then other else text

abbrev at_least_one : ℕ → ℕ
at_least_one n = if ltb n 1 then 1 else n

unfoldable pub new_junit_prober :
    String → String → String → String → ℕ → Severity → JunitProberSettings → JunitProber
new_junit_prober component sub bucket job max_age severity settings = record {
  component_slug = component;
  sub_component_slug = sub;
  bucket = or_default bucket default_gcs_bucket;
  job_name = trim_space job;
  max_age = max_age;
  severity = or_default severity severity_degraded;
  settings = record {
    artifact_url_style = or_default settings.artifact_url_style style_gcs;
    gcs_web_base_url = settings.gcs_web_base_url;
    history_runs = at_least_one settings.history_runs;
    failed_runs_threshold =
        if at_least_one settings.history_runs == 1 then 1 else settings.failed_runs_threshold;
  };
}

unfoldable pub gcs_web_base : JunitProber → String
gcs_web_base p =
    if trim_space p.settings.gcs_web_base_url == ""
    then default_gcs_web_base
    else trim_right_char 47 p.settings.gcs_web_base_url

unfoldable pub prow_log_object_url : JunitProber → List String → String
unfolding gcs_web_base
prow_log_object_url p segments =
    let tail = join "/" segments in
    if p.settings.artifact_url_style == style_gcs_web
    then trim_right_char 47 (gcs_web_base p)
      <> ("/gcs/" <> (p.bucket <> ("/logs/" <> (p.job_name <> ("/" <> tail)))))
    else "https://storage.googleapis.com/"
      <> (p.bucket <> ("/logs/" <> (p.job_name <> ("/" <> tail))))

-- A result of the probe without an error.
abbrev pub result_of : JunitProber → String → List Reason → ProbeResult
result_of p status reasons = record {
  status = record {
    component_slug = p.component_slug;
    sub_component_slug = p.sub_component_slug;
    status = status;
    reasons = reasons;
  };
  probe_type = "junit";
  error = none;
}

abbrev pub reason : JunitProber → String → List Reason
reason p results =
    record { outage_id = 0; type = "junit"; check = p.job_name; results = results } ∷ []

unfoldable pub format_error_result : JunitProber → JunitError → ProbeResult
format_error_result p e = record (result_of p "" []) {
  error = some (
      failed (
        "error running JUnit probe, for component: "
        <> (p.component_slug
            <> (" sub-component "
                <> (p.sub_component_slug
                    <> (". job: " <> (p.job_name <> (". error: " <> error_text e))))))));
}
