-- ===== src/Monitor/Severities.antt =====
-- What becomes of the severity of a failing HTTP probe (cmd/component-monitor/http-prober.go) when its
-- result is merged (probe-orchestrator.go): the configuration of the monitor does not check it.
use ship_status_dash.Base.{
  ℕ, ◌<◌, ◌≡◌, ◌≢◌, ◌⊎◌, inl, inr, refl, ap, ◌∙◌, String, true, false, some, [], ◌∷◌, arith,
  Bool-cases, nat_eq, string_eq,
}
use ship_status_dash.Types.Severity.{
  Severity, Status, status_healthy, to_status, is_valid_severity, get_severity_level, to_severity,
}
use ship_status_dash.Types.Severity.Laws.{to_severity-to_status, level_pos_of_valid}
use ship_status_dash.Dashboard.Report.{ReportStatus}
use ship_status_dash.Monitor.Merge.{
  merge_statuses_for_sub_component, non_errored_statuses, has_error, most_critical_status,
  worse_status, status_level, merged_status, failed_reasons,
}
use ship_status_dash.Monitor.Http.{HttpProber, make_status}

invalid_lem : (s : Severity) → is_valid_severity s ≡ false → to_status s ≡ "Invalid"
unfolding is_valid_severity to_status
invalid_lem s h = ground arith

invalid_level : (t : Status) → t ≡ "Invalid" → status_level t ≡ 0
unfolding status_level to_severity get_severity_level
invalid_level t e = rw e refl

level_of_valid : (s : Severity) → is_valid_severity s ≡ true → 0 < status_level (to_status s)
unfolding status_level
level_of_valid s h = rw (to_severity-to_status s h) (level_pos_of_valid s h)

healthy_level : status_level status_healthy ≡ 0
unfolding status_level to_severity get_severity_level
healthy_level = refl

-- The status that one probe comes to.
abbrev alone : String → String → ReportStatus → ReportStatus
alone component sub s =
    merged_status component sub (worse_status status_healthy s.status) (failed_reasons (s ∷ []))

worse-valid :
    (s : Severity)
    → is_valid_severity s ≡ true
    → worse_status status_healthy (to_status s) ≡ to_status s
unfolding worse_status
worse-valid s h = ground (arith, level_of_valid s h, healthy_level)

worse-invalid :
    (s : Severity)
    → is_valid_severity s ≡ false
    → worse_status status_healthy (to_status s) ≡ status_healthy
unfolding worse_status
worse-invalid s h = ground (arith, healthy_level, invalid_level (to_status s) (invalid_lem s h))

-- A failing HTTP probe that gives the only result for its sub-component is, with a valid severity,
-- reported with the status of that severity; with any other severity it is reported as Healthy, without
-- reasons.
pub merged-severity :
    (p : HttpProber) (code : ℕ)
    → code ≢ p.expected_status_code
    → (merged : ReportStatus) × (merge_statuses_for_sub_component p.component_slug
          p.sub_component_slug
          (make_status p code ∷ [])
        ≡ some merged)
      × (((is_valid_severity p.severity ≡ true) × (merged.status ≡ to_status p.severity))
          ⊎ ((is_valid_severity p.severity ≡ false)
              × (merged.status ≡ status_healthy)
              × (merged.reasons ≡ [])))
unfolding merge_statuses_for_sub_component make_status has_error non_errored_statuses
    most_critical_status
merged-severity p code h =
    let status : (make_status p code).status.status ≡ to_status p.severity = ground (arith, h) in
    (
      alone p.component_slug p.sub_component_slug (make_status p code).status,
      refl,
      elim (Bool-cases (is_valid_severity p.severity)) [
        | inl valid ↦
            inl (valid, ap (worse_status status_healthy) status ∙ worse-valid p.severity valid)
        | inr invalid ↦
            let healthy : worse_status status_healthy (make_status p code).status.status
                ≡ status_healthy =
              ap (worse_status status_healthy) status ∙ worse-invalid p.severity invalid in
            inr (invalid, healthy, rw healthy refl)
      ],
    )
