-- ===== src/Monitor/MergeLaws.antt =====
-- What the merged status of a sub-component says of its probes.
use ship_status_dash.Base.{
  ◌≤◌, String, ◌≡◌, refl, sym, subst, ◌∙◌, ◌≢◌, ◌⊎◌, inl, inr, Bool, true, false, ◌&&◌, none, some,
  List, [], ◌∷◌, arith, eq_iff, All, Any, if◌then◌else◌, string_eq,
}
use ship_status_dash.Types.Severity.{Status, status_healthy}
use ship_status_dash.Dashboard.Report.{ReportStatus}
use ship_status_dash.Monitor.{ProbeResult}
use ship_status_dash.Monitor.Merge.{
  has_error, non_errored_statuses, all_healthy, failed_reasons, status_level, worse_status,
  most_critical_status, merged_status, merge_non_errored, merge_statuses_for_sub_component,
}

worse_status-above :
    (s t : Status)
    → (status_level s ≤ status_level (worse_status s t))
      × (status_level t ≤ status_level (worse_status s t))
unfolding worse_status
worse_status-above s t = (ground arith, ground arith)

worse_status-either : (s t : Status) → (worse_status s t ≡ s) ⊎ (worse_status s t ≡ t)
unfolding worse_status
worse_status-either s t = ground arith

most_critical_status-above :
    (worst : Status) (ss : List ReportStatus)
    → (status_level worst ≤ status_level (most_critical_status worst ss))
      × All (λ s. status_level s.status ≤ status_level (most_critical_status worst ss)) ss
unfolding most_critical_status
most_critical_status-above worst [] = (omega arith, tt)
most_critical_status-above worst (s ∷ ss) =
    let (a, b) = most_critical_status-above (worse_status worst s.status) ss in
    let (c, d) = worse_status-above worst s.status in (omega arith, (omega arith, b))

most_critical_status-present :
    (worst : Status) (ss : List ReportStatus)
    → (most_critical_status worst ss ≡ worst)
      ⊎ Any (λ s. s.status ≡ most_critical_status worst ss) ss
unfolding most_critical_status
most_critical_status-present worst [] = inl refl
most_critical_status-present worst (s ∷ ss) =
    elim (most_critical_status-present (worse_status worst s.status) ss) [
      | inl e ↦ elim (worse_status-either worst s.status) [
        | inl f ↦ inl (e ∙ f)
        | inr f ↦ inr (inl (sym (e ∙ f)))
      ]
      | inr m ↦ inr (inr m)
    ]

-- What a reported status promises: it is no less critical than what any probe found that ran, it is
-- Healthy or what some probe found, and a healthy one gives no reasons.
pub record Summarizes (component sub : String) (found : List ReportStatus) (merged : ReportStatus)
    : Type 0 where
  pub component_slug : merged.component_slug ≡ component
  pub sub_component_slug : merged.sub_component_slug ≡ sub
  pub greatest : All (λ s. status_level s.status ≤ status_level merged.status) found
  pub present : (merged.status ≡ status_healthy) ⊎ Any (λ s. s.status ≡ merged.status) found
  pub healthy_reasons : merged.status ≡ status_healthy → merged.reasons ≡ []
  pub failed_only : merged.status ≢ status_healthy → merged.reasons ≡ failed_reasons found

merged_status-Summarizes :
    (component sub : String) (s : ReportStatus) (ss : List ReportStatus)
    → Summarizes component sub (s ∷ ss) (
        merged_status component sub
          (most_critical_status status_healthy (s ∷ ss))
          (failed_reasons (s ∷ ss)))
merged_status-Summarizes component sub s ss =
    let worst = most_critical_status status_healthy (s ∷ ss) in
    record {
      component_slug = refl;
      sub_component_slug = refl;
      greatest = (most_critical_status-above status_healthy (s ∷ ss)).1;
      present = most_critical_status-present status_healthy (s ∷ ss);
      healthy_reasons = λ e. ground (arith, e, eq_iff worst status_healthy);
      failed_only = λ e. ground (arith, e, eq_iff worst status_healthy);
    }

pub merge_statuses_for_sub_component-Summarizes :
    (component sub : String) (group : List ProbeResult) (merged : ReportStatus)
    → merge_statuses_for_sub_component component sub group ≡ some merged
    → Summarizes component sub (non_errored_statuses group) merged
unfolding merge_statuses_for_sub_component
merge_statuses_for_sub_component-Summarizes component sub group merged h =
    go (has_error group && all_healthy (non_errored_statuses group)) (non_errored_statuses group) h
  where
    go :
        (b : Bool) (ss : List ReportStatus)
        → (if b then none else merge_non_errored component sub ss) ≡ some merged
        → Summarizes component sub ss merged
    go true ss h = cc
    go false [] h = cc
    go false (s ∷ ss) h =
        let same : merged_status component sub (most_critical_status status_healthy (s ∷ ss))
              (failed_reasons (s ∷ ss))
            ≡ merged =
          cc in
        subst (Summarizes component sub (s ∷ ss)) same (merged_status-Summarizes component sub s ss)
