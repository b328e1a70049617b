-- ===== src/Monitor/Junit/Probe.antt =====
-- `Probe` of the JUnit prober (cmd/component-monitor/junit-prober.go).
pub mod Laws
use ship_status_dash.Base.{
  String, ◌<>◌, Bool, true, false, not, Option, none, some, List, [], ◌∷◌, Exec, Result, ok, err,
  pure, raise, or_raise, ◌>>=◌, ◌>>◌, trim_space, select, ◌==◌, nat_eq, string_eq, if◌then◌else◌,
}
use ship_status_dash.Monitor.{ProbeResult}
use ship_status_dash.Monitor.Junit.{
  JunitError, message, wrap, JunitProber, Surroundings, prow_object_latest_build,
  prow_log_object_url, format_error_result,
}
use ship_status_dash.Monitor.Junit.Suites.{
  JunitStats, parse_suites_from_junit_body, aggregate_junit_from_suites,
  make_status_from_aggregates,
}
use ship_status_dash.Monitor.Junit.Builds.{
  fetch_text, is_build_finished, check_build_staleness, find_previous_build_id,
  resolve_build_ids_to_evaluate,
}
use ship_status_dash.Monitor.Junit.Verdict.{Run, evaluate_runs}

-- The goroutine of a probe ends by sending its result, or with a panic.
pub data Ending : Type 0 where
  sent : ProbeResult → Ending
  panicked : Ending

abbrev pub without : Option String → List String → List String
without none builds = builds
without (some unfinished) builds = select (λ b. not (b == unfinished)) builds

abbrev from_parsed : {S A : Type 0} → Result JunitError A → Exec S JunitError A
from_parsed (ok a) = pure a
from_parsed (err e) = raise e

module _ {S : Type 0} (w : Surroundings S) (p : JunitProber) where
  unfoldable pub fetch_junit_body : String → Exec S JunitError String
  fetch_junit_body id =
      fetch_text w (prow_log_object_url p (id ∷ "artifacts" ∷ "junit_canary.xml" ∷ []))

  unfoldable pub make_status_from_xml_body : String → String → Exec S JunitError ProbeResult
  make_status_from_xml_body id body = do
    suites ←
        or_raise (from_parsed (parse_suites_from_junit_body w.decode_xml body))
          (wrap ("parsing junit XML for build " <> (id <> ": ")))
    pure (make_status_from_aggregates p id (aggregate_junit_from_suites suites))

  unfoldable pub probe_junit_for_build_id : String → Exec S JunitError ProbeResult
  probe_junit_for_build_id id = do body ← fetch_junit_body id; make_status_from_xml_body id body

  unfoldable pub junit_stats_for_build : String → Exec S JunitError JunitStats
  junit_stats_for_build id = do
    body ← fetch_junit_body id
    suites ← from_parsed (parse_suites_from_junit_body w.decode_xml body)
    pure (aggregate_junit_from_suites suites)

  unfoldable pub stats_of_builds : List String → Exec S JunitError (List Run)
  stats_of_builds [] = pure []
  stats_of_builds (id ∷ ids) = do
    stats ← or_raise (junit_stats_for_build id) (wrap ("build " <> (id <> ": ")))
    rest ← stats_of_builds ids
    pure (record { build = id; stats = stats } ∷ rest)

  -- `builds[0]`.
  abbrev pub probe_first : List String → Exec S JunitError Ending
  probe_first [] = pure panicked
  probe_first (b ∷ bs) = do result ← probe_junit_for_build_id b; pure (sent result)

  abbrev pub evaluate_builds : List String → Exec S JunitError Ending
  evaluate_builds builds = elim (p.settings.history_runs == 1) [
    | true ↦ probe_first builds
    | false ↦ do runs ← stats_of_builds builds; pure (sent (evaluate_runs w.range_counts p runs))
  ]

  -- From the build that is the latest finished one; the unfinished one, if any, is left out.
  unfoldable pub evaluate_from : Option String → String → Exec S JunitError Ending
  evaluate_from unfinished latest = do
    builds ← resolve_build_ids_to_evaluate w p latest
    evaluate_builds (without unfinished builds)

  abbrev pub result_or : Exec S JunitError Ending → Option ProbeResult → Exec S JunitError Ending
  result_or m none = m
  result_or m (some result) = pure (sent result)

  -- Go on unless the build is stale.
  abbrev pub unless_stale : String → Exec S JunitError Ending → Exec S JunitError Ending
  unless_stale id m = do stale ← check_build_staleness w p id; result_or m stale

  abbrev pub from_previous : String → Exec S JunitError Ending
  from_previous latest = do
    previous ←
        or_raise (find_previous_build_id w p latest)
          (wrap ("latest build " <> (latest <> " not finished and ")))
    unless_stale previous (evaluate_from (some latest) previous)

  abbrev pub by_finished : String → Bool → Exec S JunitError Ending
  by_finished latest true = evaluate_from none latest
  by_finished latest false = from_previous latest

  abbrev pub from_latest : String → Exec S JunitError Ending
  from_latest latest = do
    finished ←
        or_raise (is_build_finished w p latest)
          (wrap ("checking finished.json for build " <> (latest <> ": ")))
    by_finished latest finished

  abbrev pub probe_latest : String → Exec S JunitError Ending
  probe_latest latest = elim (latest == "") [
    | true ↦ raise (message "empty latest build ID from latest-build.txt")
    | false ↦ unless_stale latest (from_latest latest)
  ]

  unfoldable pub probe_or_error : Exec S JunitError Ending
  probe_or_error = do
    text ←
        or_raise (fetch_text w (prow_log_object_url p (prow_object_latest_build ∷ [])))
          (wrap "fetching latest build ID: ")
    probe_latest (trim_space text)

  abbrev pub ending : Result JunitError Ending → Ending
  ending (ok e) = e
  ending (err e) = sent (format_error_result p e)

  unfoldable pub probe : S → Ending × S
  probe s = let (r, s') = probe_or_error s in (ending r, s')
