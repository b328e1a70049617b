-- ===== src/Tests/Junit.antt =====
-- A JUnit probe of a job with three finished builds, in each of which the same test failed.
use ship_status_dash.Base.{
  ℕ, ◌≡◌, refl, Bool, true, false, Option, none, some, List, [], ◌∷◌, ok, arith, Reorders,
}
use ship_status_dash.Types.Severity.{severity_degraded}
use ship_status_dash.Monitor.{ProbeResult}
use ship_status_dash.Monitor.Junit.{JunitProber, JunitCase, JunitSuite, Surroundings}
use ship_status_dash.Monitor.Junit.Suites.{JunitStats, junit_failure_signature}
use ship_status_dash.Monitor.Junit.Builds.{resolve_build_ids_to_evaluate}
use ship_status_dash.Monitor.Junit.Builds.Laws.{AreEvaluable, resolve-AreEvaluable}
use ship_status_dash.Monitor.Junit.Verdict.{Run, evaluate_runs}
use ship_status_dash.Monitor.Junit.Verdict.Laws.{IsVerdict, evaluate_runs-IsVerdict}
use ship_status_dash.Monitor.Junit.Probe.{sent, probe}
use ship_status_dash.Monitor.Junit.Probe.Laws.{probe-sent}
use ship_status_dash.Monitor.Junit.Builds

abbrev failing : JunitCase
failing = record { name = "sync"; has_failure = true; has_error = false }

abbrev passing : JunitCase
passing = record { name = "login"; has_failure = false; has_error = false }

abbrev suites : List JunitSuite
suites = record { tests = 2; test_cases = failing ∷ passing ∷ [] } ∷ []

abbrev surroundings : Surroundings ℕ
surroundings = record {
  get = λ url s. (ok (record { status_code = 200; read = λ n. ok "2" }), s);
  now = λ s. (62135596800000000000, s);
  decode_started = λ body. ok 1;
  decode_list = λ body. ok (record {
    prefixes = "logs/canary/1/" ∷ "logs/canary/2/" ∷ "logs/canary/3/" ∷ [];
    next_page_token = "";
  });
  decode_xml = λ body. ok (record { suites = suites; tests = 0; test_cases = [] });
  encode_query = λ pairs. "";
  path_escape = λ text. text;
  format_age = λ age. "1m0s";
  format_duration = λ age. "24h0m0s";
  exceeds = λ a b. none;
  range_ids = λ ids. ids;
  range_counts = λ counts. counts;
}

in_order : Reorders surroundings.range_ids
in_order p l = refl

abbrev prober : JunitProber
prober = record {
  component_slug = "prow";
  sub_component_slug = "tide";
  bucket = "test-platform-results";
  job_name = "canary";
  max_age = 86400000000000;
  severity = severity_degraded;
  settings = record {
    artifact_url_style = "gcs";
    gcs_web_base_url = "";
    history_runs = 2;
    failed_runs_threshold = 2;
  };
}

abbrev stats : JunitStats
stats = record { total = 2; failed = "sync" ∷ [] }

abbrev runs : List Run
runs = record { build = "3"; stats = stats } ∷ record { build = "2"; stats = stats } ∷ []

evaluate_runs-IsVerdict_example : IsVerdict prober runs (evaluate_runs (λ l. l) prober runs)
evaluate_runs-IsVerdict_example =
    evaluate_runs-IsVerdict (λ l. l) (λ p l. refl) prober runs (omega arith)

probe-sent_example : (result : ProbeResult) × ((probe surroundings prober 0).0 ≡ sent result)
probe-sent_example = probe-sent surroundings in_order prober 0

resolved : resolve_build_ids_to_evaluate surroundings prober "2" 0 ≡ (ok ("3" ∷ "2" ∷ []), 0)
unfolding resolve_build_ids_to_evaluate Builds.list_build_id_prefixes Builds.list_pages
    Builds.fetch_gcs_list_page Builds.fetch_text Builds.keep_finished Builds.sort_build_ids_desc
    Builds.build_id_from_prefix_path ship_status_dash.Base.strip_prefix
    ship_status_dash.Base.trim_left_char ship_status_dash.Base.before_char Builds.insert_build
    Builds.build_id_greater Builds.is_build_finished
resolved = refl

resolve-AreEvaluable_example : AreEvaluable surroundings prober ("3" ∷ "2" ∷ [])
resolve-AreEvaluable_example =
    resolve-AreEvaluable surroundings prober "2" ("3" ∷ "2" ∷ []) 0 0 refl resolved

-- A test whose name has a comma, and two tests.
same_signature :
    junit_failure_signature (record { total = 2; failed = "a,b" ∷ [] })
    ≡ junit_failure_signature (record { total = 2; failed = "a" ∷ "b" ∷ [] })
unfolding junit_failure_signature
same_signature = refl
