-- ===== src/Monitor/Junit/Suites.antt =====
-- What the probe makes of a JUnit document (cmd/component-monitor/junit-prober.go): the number of
-- tests, the names of those that failed, and the signature of a failure.
pub mod Laws
use ship_status_dash.Base.{
  ℕ, ◌+◌, String, ◌<>◌, Bool, true, false, not, ◌&&◌, ◌||◌, Option, none, some, List, [], ◌∷◌,
  Result, ok, err, join, trim_space, insert_key, strip_prefix, split_char, length, ◌==◌, nat_eq,
  string_eq, if◌then◌else◌,
}
use ship_status_dash.Types.Severity.{status_healthy, to_status}
use ship_status_dash.Utils.Format.{decimal}
use ship_status_dash.Monitor.{ProbeResult}
use ship_status_dash.Monitor.Merge.{text_ltb}
use ship_status_dash.Monitor.Junit.{
  JunitCase, JunitSuite, JunitDoc, JunitProber, JunitError, message, result_of, reason,
}

abbrev is_nil : {A : Type 0} → List A → Bool
is_nil [] = true
is_nil (x ∷ xs) = false

-- A suite of the document's own tests where it holds no suites.
abbrev suites_of : JunitDoc → List JunitSuite
suites_of doc = elim doc.suites [
  | [] ↦ record { tests = doc.tests; test_cases = doc.test_cases } ∷ []
  | s ∷ ss ↦ s ∷ ss
]

abbrev pub decoded_suites : Result String JunitDoc → Result JunitError (List JunitSuite)
decoded_suites (err e) = err (message e)
decoded_suites (ok doc) = ok (suites_of doc)

unfoldable pub parse_suites_from_junit_body :
    (String → Result String JunitDoc) → String → Result JunitError (List JunitSuite)
parse_suites_from_junit_body decode_xml body =
    if trim_space body == ""
    then err (message "empty JUnit body")
    else decoded_suites (decode_xml body)

abbrev pub failed_case : JunitCase → Bool
failed_case c = (c.has_failure || c.has_error) && not (c.name == "")

-- The keys of the map `seen` after the test cases of a suite.
unfoldable pub add_failed : List JunitCase → List String → List String
add_failed [] seen = seen
add_failed (c ∷ cs) seen = add_failed cs (if failed_case c then insert_key c.name seen else seen)

unfoldable pub failed_names : List JunitSuite → List String → List String
failed_names [] seen = seen
failed_names (s ∷ ss) seen = failed_names ss (add_failed s.test_cases seen)

unfoldable pub total_tests : List JunitSuite → ℕ
total_tests [] = 0
total_tests (s ∷ ss) = s.tests + total_tests ss

-- `sort.Strings`.
unfoldable pub insert_name : String → List String → List String
insert_name n [] = n ∷ []
insert_name n (m ∷ ms) =
    let rest = insert_name n ms in if text_ltb m n then m ∷ rest else n ∷ (m ∷ ms)

unfoldable pub sort_names : List String → List String
sort_names [] = []
sort_names (n ∷ ns) = insert_name n (sort_names ns)

-- The total number of tests, and the names of the failed ones, sorted.
pub record JunitStats : Type 0 where
  pub total : ℕ
  pub failed : List String

unfoldable pub aggregate_junit_from_suites : List JunitSuite → JunitStats
aggregate_junit_from_suites suites = record {
  total = total_tests suites;
  failed = sort_names (failed_names suites []);
}

unfoldable pub junit_unhealthy : JunitStats → Bool
junit_unhealthy t = t.total == 0 || not (is_nil t.failed)

abbrev pub signature_zero : String
signature_zero = "zero_tests"

abbrev pub signature_failed_prefix : String
signature_failed_prefix = "failed:"

unfoldable pub junit_failure_signature : JunitStats → String
junit_failure_signature t =
    if t.total == 0
    then signature_zero
    else if is_nil t.failed
    then ""
    else signature_failed_prefix <> join "," t.failed

abbrev short_names : String → Option String → String
short_names signature none = signature
short_names signature (some names) = "failed: " <> join ", " (split_char 44 names)

unfoldable pub format_junit_signature_short : String → String
format_junit_signature_short signature =
    if signature == signature_zero
    then "zero tests (no JUnit test cases, or total tests=0)"
    else short_names signature (strip_prefix signature_failed_prefix signature)

abbrev failures : JunitStats → String
failures t =
    decimal (length t.failed)
    <> ("/" <> (decimal t.total <> (" tests failed: " <> join ", " t.failed)))

unfoldable pub format_junit_build_summary : JunitStats → String
format_junit_build_summary t =
    if t.total == 0
    then "zero tests found"
    else if is_nil t.failed
    then "all " <> (decimal t.total <> " tests passed")
    else failures t

unfoldable pub make_status_from_aggregates : JunitProber → String → JunitStats → ProbeResult
make_status_from_aggregates p build t =
    if t.total == 0
    then result_of p (to_status p.severity) (reason p ("build " <> (build <> ": zero tests found")))
    else if is_nil t.failed
    then result_of p status_healthy []
    else result_of p (to_status p.severity) (reason p ("build " <> (build <> (": " <> failures t))))
