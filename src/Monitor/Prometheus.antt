-- ===== src/Monitor/Prometheus.antt =====
-- The Prometheus probe (cmd/component-monitor/prometheus-prober.go). The values of samples are the texts
-- that the client's library prints for them. A duration is a number of nanoseconds, not negative.
pub mod Laws
use ship_status_dash.Base.{
  ℕ, ◌-◌, String, ◌<>◌, Bool, true, false, Option, none, some, List, [], ◌∷◌, ◌++◌, map, join, Exec,
  Result, ok, err, pure, raise, attempt, ◌>>=◌, ◌>>◌, ltb, ◌==◌, string_eq, if◌then◌else◌,
}
use ship_status_dash.Types.Severity.{Severity, status_healthy, to_status, get_severity_level}
use ship_status_dash.Types.Outage.{Reason}
use ship_status_dash.Types.Monitoring.{PrometheusQuery}
use ship_status_dash.Env.{failed}
use ship_status_dash.Monitor.{ProbeResult}
use ship_status_dash.Monitor.Junit.Suites.{sort_names}

pub record Sample : Type 0 where
  pub metric : List (String × String)
  pub value : String

-- `model.Value`: the streams of a matrix hold the texts of their values.
pub data Value : Type 0 where
  vector : List Sample → Value
  scalar : Option String → Value
  matrix : List (List String) → Value
  text : Option String → Value
  other : String → Value

pub record Range : Type 0 where
  pub start : ℕ
  pub end : ℕ
  pub step : ℕ

-- The client, the clock and the parser of durations; a result may be nil.
pub record PrometheusClient (S : Type 0) : Type 0 where
  pub query : String → ℕ → Exec S String (Option Value)
  pub query_range : String → Range → Exec S String (Option Value)
  pub now : S → ℕ × S
  pub parse_duration : String → Result String ℕ

pub record PrometheusProber : Type 0 where
  pub component_slug : String
  pub sub_component_slug : String
  pub prometheus_queries : List PrometheusQuery

unfoldable pub new_prometheus_prober : String → String → List PrometheusQuery → PrometheusProber
new_prometheus_prober component sub queries = record {
  component_slug = component;
  sub_component_slug = sub;
  prometheus_queries = queries;
}

abbrev vector_succeeded : List Sample → Bool
vector_succeeded [] = false
vector_succeeded (v ∷ vs) = true

abbrev scalar_succeeded : Option String → Bool
scalar_succeeded none = false
scalar_succeeded (some v) = true

abbrev matrix_succeeded : List (List String) → Bool
matrix_succeeded ((v ∷ vs) ∷ streams) = true
matrix_succeeded ([] ∷ streams) = false
matrix_succeeded [] = false

abbrev value_succeeded : Value → Bool
value_succeeded (vector v) = vector_succeeded v
value_succeeded (scalar v) = scalar_succeeded v
value_succeeded (matrix v) = matrix_succeeded v
value_succeeded (text v) = false
value_succeeded (other v) = false

unfoldable pub succeeded : Option Value → Bool
succeeded none = false
succeeded (some v) = value_succeeded v

abbrev label : String × String → String
label (name, value) = name <> ("=" <> value)

abbrev sample_text : Sample → String
sample_text s = "{" <> (join "," (sort_names (map label s.metric)) <> ("}=" <> s.value))

abbrev vector_text : List Sample → String
vector_text [] = "empty vector"
vector_text (v ∷ []) = v.value
vector_text (v ∷ (u ∷ vs)) = join ", " (map sample_text (v ∷ (u ∷ vs)))

abbrev last_of : String → List String → String
last_of v [] = v
last_of v (u ∷ us) = last_of u us

abbrev matrix_text : List (List String) → String
matrix_text ((v ∷ vs) ∷ streams) = last_of v vs
matrix_text ([] ∷ streams) = "empty matrix"
matrix_text [] = "empty matrix"

abbrev text_or : String → Option String → String
text_or missing none = missing
text_or missing (some v) = v

unfoldable pub extract_value : Value → String
extract_value (vector v) = vector_text v
extract_value (scalar v) = text_or "nil scalar" v
extract_value (matrix v) = matrix_text v
extract_value (text v) = text_or "nil string" v
extract_value (other v) = v

-- What is said of a failed query: its failure query is a help only, and may fail.
abbrev failure_text : Result String (Option Value) → String
failure_text (err e) = "query returned unsuccessful"
failure_text (ok none) = "no failure query result"
failure_text (ok (some v)) = extract_value v

abbrev reason_of : PrometheusQuery → String → Reason
reason_of q results = record {
  outage_id = 0;
  type = "prometheus";
  check = q.query;
  results = results;
}

-- One round of the loop over the failed queries, and the loop.
abbrev pub worse_severity : Severity → PrometheusQuery → Severity
worse_severity worst q =
    if ltb (get_severity_level worst) (get_severity_level q.severity) then q.severity else worst

unfoldable pub most_critical_severity : Severity → List PrometheusQuery → Severity
most_critical_severity worst [] = worst
most_critical_severity worst (q ∷ qs) = most_critical_severity (worse_severity worst q) qs

abbrev pub result_of : PrometheusProber → String → List Reason → ProbeResult
result_of p status reasons = record {
  status = record {
    component_slug = p.component_slug;
    sub_component_slug = p.sub_component_slug;
    status = status;
    reasons = reasons;
  };
  probe_type = "prometheus";
  error = none;
}

unfoldable pub create_error_result : PrometheusProber → String → String → ProbeResult
create_error_result p query e = record (result_of p "" []) {
  error = some (
      failed (
        "error running Prometheus query, for component: "
        <> (p.component_slug
            <> (" sub-component "
                <> (p.sub_component_slug <> (". query: " <> (query <> (". error: " <> e))))))));
}

-- The queries that succeeded, and those that did not.
pub record Outcome : Type 0 where
  pub successful : List PrometheusQuery
  pub failing : List PrometheusQuery

-- A query that could not be run, with its error.
pub record QueryError : Type 0 where
  pub query : String
  pub text : String

abbrev success_reasons : List PrometheusQuery → List Reason
success_reasons [] = []
success_reasons (q ∷ qs) = reason_of q "query returned successfully" ∷ success_reasons qs

module _ {S : Type 0} (client : PrometheusClient S) where
  abbrev read_clock : {E : Type 0} → Exec S E ℕ
  read_clock s = let (now, s') = client.now s in (ok now, s')

  abbrev parse : String → Exec S String ℕ
  parse duration s = (client.parse_duration duration, s)

  abbrev range_query : String → String → String → ℕ → Exec S String (Option Value)
  range_query query duration step now = do
    d ← parse duration
    st ← parse step
    client.query_range query (record { start = now - d; end = now; step = st })

  unfoldable pub run_query : String → String → String → Exec S String (Option Value)
  run_query query duration step = do
    now ← read_clock
    if duration == "" then client.query query now else range_query query duration step now

  abbrev add_outcome : PrometheusQuery → Bool → Outcome → Outcome
  add_outcome q true o = record o { successful = q ∷ o.successful }
  add_outcome q false o = record o { failing = q ∷ o.failing }

  abbrev run_configured : PrometheusQuery → Exec S QueryError (Option Value)
  run_configured q s =
      let (r, s') = run_query q.query q.duration q.step s in
      elim r [ ok v ↦ (ok v, s') | err e ↦ (err (record { query = q.query; text = e }), s') ]

  -- The loop over the queries, which the first error ends.
  unfoldable pub run_queries : List PrometheusQuery → Exec S QueryError Outcome
  run_queries [] = pure (record { successful = []; failing = [] })
  run_queries (q ∷ qs) = do
    v ← run_configured q
    rest ← run_queries qs
    pure (add_outcome q (succeeded v) rest)

  abbrev explain_if : {E : Type 0} → Bool → PrometheusQuery → Exec S E String
  explain_if true q = pure "query returned unsuccessful"
  explain_if false q = do r ← attempt (run_query q.failure_query "" ""); pure (failure_text r)

  abbrev explain : {E : Type 0} → PrometheusQuery → Exec S E String
  explain q = explain_if (q.failure_query == "") q

  unfoldable pub failure_reasons : {E : Type 0} → List PrometheusQuery → Exec S E (List Reason)
  failure_reasons [] = pure []
  failure_reasons (q ∷ qs) = do
    results ← explain q
    rest ← failure_reasons qs
    pure (reason_of q results ∷ rest)

  unfoldable pub create_status_from_query_results :
      {E : Type 0}
      → PrometheusProber
      → List PrometheusQuery
      → List PrometheusQuery
      → Exec S E ProbeResult
  create_status_from_query_results p successful [] =
      pure (result_of p status_healthy (success_reasons successful))
  create_status_from_query_results p successful (q ∷ qs) = do
    reasons ← failure_reasons (q ∷ qs)
    pure (result_of p (to_status (most_critical_severity "" (q ∷ qs))) reasons)

  abbrev pub conclude : PrometheusProber → Result QueryError Outcome → Exec S QueryError ProbeResult
  conclude p (err e) = pure (create_error_result p e.query e.text)
  conclude p (ok o) = create_status_from_query_results p o.successful o.failing

  -- `Probe`: the result that it sends.
  unfoldable pub probe : PrometheusProber → Exec S QueryError ProbeResult
  probe p = do r ← attempt (run_queries p.prometheus_queries); conclude p r
