-- ===== src/Monitor/Junit/Verdict.antt =====
-- What the failures of several runs come to (cmd/component-monitor/junit-prober.go, `Probe`): the
-- failure pattern that most of them share, and the result.
pub mod Laws
use ship_status_dash.Base.{
  ℕ, ◌+◌, String, ◌<>◌, Bool, ◌&&◌, ◌||◌, List, [], ◌∷◌, join, length, ◌==◌, nat_eq, string_eq,
  if◌then◌else◌, ltb,
}
use ship_status_dash.Types.Severity.{status_healthy, to_status}
use ship_status_dash.Utils.Format.{decimal}
use ship_status_dash.Monitor.{ProbeResult}
use ship_status_dash.Monitor.Merge.{text_ltb}
use ship_status_dash.Monitor.Junit.{JunitProber, SignatureCount, result_of, reason}
use ship_status_dash.Monitor.Junit.Suites.{
  JunitStats, junit_unhealthy, junit_failure_signature, format_junit_signature_short,
  format_junit_build_summary,
}

-- A build with its statistics.
pub record Run : Type 0 where
  pub build : String
  pub stats : JunitStats

-- `signatureCount[sig]++`.
unfoldable pub count_signature : String → List SignatureCount → List SignatureCount
count_signature sig [] = record { signature = sig; runs = 1 } ∷ []
count_signature sig (c ∷ cs) =
    let rest = count_signature sig cs in
    if c.signature == sig then record c { runs = c.runs + 1 } ∷ cs else c ∷ rest

-- The map after the loop over the runs.
unfoldable pub count_signatures : List SignatureCount → List Run → List SignatureCount
count_signatures counts [] = counts
count_signatures counts (r ∷ rs) =
    count_signatures
      (if junit_unhealthy r.stats
        then count_signature (junit_failure_signature r.stats) counts
        else counts)
      rs

-- One round of the loop that looks for the highest count; of signatures as frequent, the smallest.
abbrev pub higher : SignatureCount → SignatureCount → SignatureCount
higher best c =
    if ltb best.runs c.runs
    then c
    else if c.runs == best.runs
        && ltb 0 c.runs
        && (best.signature == "" || text_ltb c.signature best.signature)
    then record best { signature = c.signature }
    else best

unfoldable pub highest : SignatureCount → List SignatureCount → SignatureCount
highest best [] = best
highest best (c ∷ cs) = highest (higher best c) cs

abbrev pub nothing_counted : SignatureCount
nothing_counted = record { signature = ""; runs = 0 }

abbrev pub summaries : List Run → List String
summaries [] = []
summaries (r ∷ rs) =
    ("build " <> (r.build <> (": " <> format_junit_build_summary r.stats))) ∷ summaries rs

abbrev pub shared_failure : JunitProber → List Run → SignatureCount → ProbeResult
shared_failure p runs best = result_of p (to_status p.severity) (
    reason p (
      "junit: "
      <> (decimal best.runs
          <> (" of the last "
              <> (decimal (length runs)
                  <> (" run(s) share the same failure pattern: "
                      <> (format_junit_signature_short best.signature
                          <> (" (threshold "
                              <> (decimal p.settings.failed_runs_threshold
                                  <> (") — " <> join " | " (summaries runs)))))))))))

abbrev pub judge : JunitProber → List Run → SignatureCount → ProbeResult
judge p runs best =
    if ltb best.runs p.settings.failed_runs_threshold
    then result_of p status_healthy []
    else shared_failure p runs best

-- The result for several runs; `range` is the order in which Go goes through the map.
unfoldable pub evaluate_runs :
    (List SignatureCount → List SignatureCount) → JunitProber → List Run → ProbeResult
evaluate_runs range p runs =
    judge p runs (highest nothing_counted (range (count_signatures [] runs)))
