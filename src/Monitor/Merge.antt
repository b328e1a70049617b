-- ===== src/Monitor/Merge.antt =====
-- `mergeStatuses` (cmd/component-monitor/probe-orchestrator.go). A Go map is a list of its entries;
-- the order in which Go goes through it does not matter, since the statuses are sorted afterwards.
use Prim.Native.Nat
use Prim.Native.String.{compare}
use ship_status_dash.Base.{
  ℕ, String, Bool, true, false, ◌&&◌, ◌||◌, Option, none, some, List, [], ◌∷◌, ◌++◌, ◌==◌,
  string_eq, if◌then◌else◌, ltb, is_some,
}
use ship_status_dash.Types.Severity.{Status, status_healthy, to_severity, get_severity_level}
use ship_status_dash.Types.Outage.{Reason}
use ship_status_dash.Dashboard.Report.{ReportStatus}
use ship_status_dash.Monitor.{ProbeResult}

abbrev pub errored : ProbeResult → Bool
errored r = is_some r.error

unfoldable pub has_error : List ProbeResult → Bool
has_error [] = false
has_error (r ∷ rs) = errored r || has_error rs

unfoldable pub non_errored_statuses : List ProbeResult → List ReportStatus
non_errored_statuses [] = []
non_errored_statuses (r ∷ rs) =
    let rest = non_errored_statuses rs in if errored r then rest else r.status ∷ rest

unfoldable pub all_healthy : List ReportStatus → Bool
all_healthy [] = true
all_healthy (s ∷ ss) = if s.status == status_healthy then all_healthy ss else false

unfoldable pub failed_reasons : List ReportStatus → List Reason
failed_reasons [] = []
failed_reasons (s ∷ ss) =
    let rest = failed_reasons ss in if s.status == status_healthy then rest else s.reasons ++ rest

unfoldable pub status_level : Status → ℕ
status_level s = get_severity_level (to_severity s)

-- One round of the loop: the more critical status of two, the first if they are as critical.
unfoldable pub worse_status : Status → Status → Status
worse_status worst status = if ltb (status_level worst) (status_level status) then status else worst

unfoldable pub most_critical_status : Status → List ReportStatus → Status
most_critical_status worst [] = worst
most_critical_status worst (s ∷ ss) = most_critical_status (worse_status worst s.status) ss

abbrev pub merged_status : String → String → Status → List Reason → ReportStatus
merged_status component sub status reasons = record {
  component_slug = component;
  sub_component_slug = sub;
  status = status;
  reasons = if status == status_healthy then [] else reasons;
}

abbrev pub merge_non_errored : String → String → List ReportStatus → Option ReportStatus
merge_non_errored component sub [] = none
merge_non_errored component sub (s ∷ ss) = some (
    merged_status component sub (most_critical_status status_healthy (s ∷ ss))
      (failed_reasons (s ∷ ss)))

unfoldable pub merge_statuses_for_sub_component :
    String → String → List ProbeResult → Option ReportStatus
merge_statuses_for_sub_component component sub group =
    if has_error group && all_healthy (non_errored_statuses group)
    then none
    else merge_non_errored component sub (non_errored_statuses group)

-- An entry of the map `grouped`.
pub record Group : Type 0 where
  pub component : String
  pub sub_component : String
  pub results : List ProbeResult

abbrev pub is_group_of : ProbeResult → Group → Bool
is_group_of r g =
    g.component == r.status.component_slug && g.sub_component == r.status.sub_component_slug

unfoldable pub add_to_group : ProbeResult → List Group → List Group
add_to_group r [] =
    record {
      component = r.status.component_slug;
      sub_component = r.status.sub_component_slug;
      results = r ∷ [];
    }
    ∷ []
add_to_group r (g ∷ gs) =
    let rest = add_to_group r gs in
    if is_group_of r g then record g { results = g.results ++ (r ∷ []) } ∷ gs else g ∷ rest

unfoldable pub group_results : List Group → List ProbeResult → List Group
group_results gs [] = gs
group_results gs (r ∷ rs) = group_results (add_to_group r gs) rs

abbrev pub keep_some : Option ReportStatus → List ReportStatus → List ReportStatus
keep_some none ss = ss
keep_some (some s) ss = s ∷ ss

unfoldable pub merge_groups : List Group → List ReportStatus
merge_groups [] = []
merge_groups (g ∷ gs) =
    keep_some (merge_statuses_for_sub_component g.component g.sub_component g.results)
      (merge_groups gs)

abbrev pub text_ltb : String → String → Bool
text_ltb s t = elim (compare s t) [ Nat.Ordering.lt ↦ true | _ ↦ false ]

-- The order of the report: by component, then by sub-component.
abbrev pub comes_before : ReportStatus → ReportStatus → Bool
comes_before s t =
    if s.component_slug == t.component_slug
    then text_ltb s.sub_component_slug t.sub_component_slug
    else text_ltb s.component_slug t.component_slug

-- `sort.Slice`, on statuses no two of which have the same sub-component.
unfoldable pub insert_sorted : ReportStatus → List ReportStatus → List ReportStatus
insert_sorted s [] = s ∷ []
insert_sorted s (t ∷ ts) =
    let rest = insert_sorted s ts in if comes_before t s then t ∷ rest else s ∷ t ∷ ts

unfoldable pub sort_statuses : List ReportStatus → List ReportStatus
sort_statuses [] = []
sort_statuses (s ∷ ss) = insert_sorted s (sort_statuses ss)

unfoldable pub merge_statuses : List ProbeResult → List ReportStatus
merge_statuses results = sort_statuses (merge_groups (group_results [] results))
