-- ===== src/Monitor/Junit/Builds.antt =====
-- Which builds of a job the probe looks at (cmd/component-monitor/junit-prober.go).
pub mod Laws
use ship_status_dash.Base.{
  ℕ, zero, suc, ◌+◌, ◌-◌, ◌*◌, String, ◌<>◌, Bool, true, false, not, Option, none, some, List, [],
  ◌∷◌, ◌++◌, Exec, Result, ok, err, pure, raise, attempt, or_raise, ◌>>=◌, ◌>>◌, trim_left_char,
  strip_prefix, before_char, insert_key, insert_keys, take, length, ◌==◌, nat_eq, string_eq,
  if◌then◌else◌, ltb,
}
use ship_status_dash.Types.Severity.{to_status}
use ship_status_dash.Utils.Format.{decimal}
use ship_status_dash.Monitor.{ProbeResult}
use ship_status_dash.Monitor.Merge.{text_ltb}
use ship_status_dash.Monitor.Junit.{
  JunitError, message, http_status_error, is_http_404, wrap, JunitProber, ListPage, TextResponse,
  Surroundings, prow_log_object_url, result_of, reason,
}

abbrev prow_object_started : String
prow_object_started = "started.json"

abbrev prow_object_finished : String
prow_object_finished = "finished.json"

abbrev max_text_body_bytes : ℕ
max_text_body_bytes = 4194304

-- The nanoseconds from Go's zero time to a Unix time in seconds.
abbrev unix_time : ℕ → ℕ
unix_time seconds = (seconds + 62135596800) * 1000000000

unfoldable pub build_id_of_rest : Option String → Option String
build_id_of_rest none = none
build_id_of_rest (some rest) = let id = before_char 47 rest in if id == "" then none else some id

unfoldable pub build_id_from_prefix_path : String → String → Option String
unfolding build_id_of_rest
build_id_from_prefix_path prefix job =
    build_id_of_rest (strip_prefix ("logs/" <> (job <> "/")) (trim_left_char 47 prefix))

abbrev pub add_prefixes : String → List String → List String → List String
add_prefixes job [] unique = unique
add_prefixes job (prefix ∷ prefixes) unique =
    add_prefixes job prefixes (elim (build_id_from_prefix_path prefix job) [
      | none ↦ unique
      | some id ↦ insert_key id unique
    ])

abbrev from_result : {S A : Type 0} → Result String A → Exec S JunitError A
from_result (ok a) = pure a
from_result (err e) = raise (message e)

-- The build after the current one in the sorted list.
unfoldable pub next_after : String → List String → Option String
next_after current [] = none
next_after current (x ∷ []) = none
next_after current (x ∷ (y ∷ rest)) =
    let later = next_after current (y ∷ rest) in if x == current then some y else later

-- What a failure in the loop over the candidates is called.
abbrev candidates_error : ℕ → JunitError
candidates_error n = message ("no finished builds found among " <> (decimal n <> " candidates"))

module _ {S : Type 0} (w : Surroundings S) where
  abbrev read_body : String → TextResponse → Exec S JunitError String
  read_body url r =
      if not (r.status_code == 200)
      then raise (http_status_error r.status_code url)
      else from_result (r.read max_text_body_bytes)

  unfoldable pub fetch_text : String → Exec S JunitError String
  fetch_text url = do r ← or_raise (w.get url) message; read_body url r

  unfoldable pub build_id_greater : String → String → Bool
  build_id_greater a b = elim (w.exceeds a b) [ some greater ↦ greater | none ↦ text_ltb b a ]

  -- `sort.Slice` with this order.
  unfoldable pub insert_build : String → List String → List String
  insert_build a [] = a ∷ []
  insert_build a (b ∷ bs) =
      let rest = insert_build a bs in if build_id_greater b a then b ∷ rest else a ∷ (b ∷ bs)

  unfoldable pub sort_build_ids_desc : List String → List String
  sort_build_ids_desc [] = []
  sort_build_ids_desc (a ∷ rest) = insert_build a (sort_build_ids_desc rest)

  module _ (p : JunitProber) where
    unfoldable pub is_build_finished : String → Exec S JunitError Bool
    is_build_finished id = do
      r ← attempt (fetch_text (prow_log_object_url p (id ∷ prow_object_finished ∷ [])))
      elim r [ ok _ ↦ pure true | err e ↦ if is_http_404 e then pure false else raise e ]

    abbrev stale_result : String → ℕ → ProbeResult
    stale_result id age = result_of p (to_status p.severity) (
        reason p (
          "latest build "
          <> (id
              <> (" started "
                  <> (w.format_age age
                      <> (" ago (max age " <> (w.format_duration p.max_age <> ")")))))))

    abbrev read_clock : Exec S JunitError ℕ
    read_clock s = let (now, s') = w.now s in (ok now, s')

    abbrev check_age : String → ℕ → ℕ → Exec S JunitError (Option ProbeResult)
    check_age id timestamp now =
        let age = now - unix_time timestamp in
        pure (if ltb p.max_age age then some (stale_result id age) else none)

    abbrev check_started : String → Result String ℕ → Exec S JunitError (Option ProbeResult)
    check_started id (err e) =
        raise (message ("parsing started.json for build " <> (id <> (": " <> e))))
    check_started id (ok zero) =
        raise (message ("invalid or missing timestamp in started.json for build " <> id))
    check_started id (ok (suc n)) = do now ← read_clock; check_age id (suc n) now

    unfoldable pub check_build_staleness : String → Exec S JunitError (Option ProbeResult)
    check_build_staleness id = do
      body ←
          or_raise (fetch_text (prow_log_object_url p (id ∷ prow_object_started ∷ [])))
            (wrap ("fetching started.json for build " <> (id <> ": ")))
      check_started id (w.decode_started body)

    abbrev page_token : String → List (String × String)
    page_token token = if token == "" then [] else ("pageToken", token) ∷ []

    unfoldable pub fetch_gcs_list_page : String → String → Exec S JunitError String
    fetch_gcs_list_page prefix token = fetch_text (
        "https://www.googleapis.com/storage/v1/b/"
        <> (w.path_escape p.bucket
            <> ("/o?"
                <> w.encode_query (
                    ("prefix", prefix)
                    ∷ ("delimiter", "/")
                    ∷ ("maxResults", "1000")
                    ∷ ("fields", "prefixes,nextPageToken")
                    ∷ page_token token))))

    abbrev decode_page : String → Exec S JunitError ListPage
    decode_page body = or_raise (from_result (w.decode_list body)) (wrap "parsing GCS list: ")

    -- The loop over at most so many pages.
    unfoldable pub list_pages : ℕ → String → List String → Exec S JunitError (List String)
    list_pages zero token unique = pure unique
    list_pages (suc n) token unique = do
      body ← fetch_gcs_list_page ("logs/" <> (p.job_name <> "/")) token
      page ← decode_page body
      elim (page.next_page_token == "") [
        | true ↦ pure (add_prefixes p.job_name page.prefixes unique)
        | false ↦ list_pages n page.next_page_token (add_prefixes p.job_name page.prefixes unique)
      ]

    unfoldable pub list_build_id_prefixes : Exec S JunitError (List String)
    list_build_id_prefixes = do unique ← list_pages 50 "" []; pure (w.range_ids unique)

    -- The builds that were listed and one more, each once, sorted.
    abbrev pub candidates : String → List String → List String
    candidates id ids = sort_build_ids_desc (w.range_ids (insert_keys ids (id ∷ [])))

    abbrev pub found_previous : String → Option String → Exec S JunitError String
    found_previous current (some previous) = pure previous
    found_previous current none = raise (message ("no previous build found before " <> current))

    unfoldable pub find_previous_build_id : String → Exec S JunitError String
    find_previous_build_id current = do
      ids ← or_raise list_build_id_prefixes (wrap "listing builds for fallback: ")
      found_previous current (next_after current (candidates current ids))

    -- Only the first build of the list may be unfinished.
    abbrev pub keep_build : Bool → Bool → String → Exec S JunitError (List String)
    keep_build first true id = pure (id ∷ [])
    keep_build true false id = pure []
    keep_build false false id =
        raise (message ("build " <> (id <> " is not the latest but has no finished.json")))

    unfoldable pub keep_finished : Bool → List String → Exec S JunitError (List String)
    keep_finished first [] = pure []
    keep_finished first (id ∷ ids) = do
      done ←
          or_raise (is_build_finished id)
            (wrap ("checking finished.json for build " <> (id <> ": ")))
      here ← keep_build first done id
      rest ← keep_finished false ids
      pure (here ++ rest)

    abbrev pub recent : ℕ → List String → Exec S JunitError (List String)
    recent n [] = raise (candidates_error n)
    recent n (b ∷ bs) = pure (take p.settings.history_runs (b ∷ bs))

    unfoldable pub resolve_build_ids_to_evaluate : String → Exec S JunitError (List String)
    resolve_build_ids_to_evaluate latest = elim (ltb 1 p.settings.history_runs) [
      | false ↦ pure (latest ∷ [])
      | true ↦ do
        ids ← or_raise list_build_id_prefixes (wrap "listing recent builds: ")
        finished ← keep_finished true (candidates latest ids)
        recent (length (candidates latest ids)) finished
    ]
