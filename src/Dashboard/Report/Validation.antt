-- ===== src/Dashboard/Report/Validation.antt =====
-- `ValidateRequest` accepts exactly the reports that a service account may make.
use ship_status_dash.Base.{
  String, ◌≡◌, refl, ◌≢◌, ◌↔◌, inl, inr, true, Option, none, some, List, [], ◌∷◌, ◌++◌, arith, Any,
  All, eq_iff, string_eq,
}
use ship_status_dash.Types.Config.{
  Monitoring, SubComponent, Component, Owner, DashboardConfig, get_component_by_slug,
  get_sub_component_by_slug,
}
use ship_status_dash.Dashboard.Report.{
  ReportStatus, ReportRequest, is_owner, monitored_by, sub_component_errors, component_errors,
  validation_errors, validate_request,
}

-- What a report on one sub-component needs: the component is configured and names the account as an
-- owner, the sub-component is configured, and it is watched by the monitor that reports.
pub record IsPermitted (cfg : DashboardConfig) (monitor account : String) (status : ReportStatus)
    : Type 0 where
  pub component : Component
  pub sub : SubComponent
  pub monitoring : Monitoring
  pub found : get_component_by_slug cfg status.component_slug ≡ some component
  pub found_sub : get_sub_component_by_slug component status.sub_component_slug ≡ some sub
  pub owned : Any (λ o. o.service_account ≡ account) component.owners
  pub named : account ≢ ""
  pub watched : sub.monitoring ≡ some monitoring
  pub by_monitor : monitoring.component_monitor ≡ monitor

is_owner_sound :
    (os : List Owner) (account : String)
    → is_owner os account ≡ true
    → Any (λ o. o.service_account ≡ account) os × (account ≢ "")
is_owner_sound [] account h = cc
is_owner_sound (o ∷ os) account h = ground (
  arith,
  is_owner_sound os account,
  eq_iff o.service_account account,
  eq_iff o.service_account "",
)

is_owner_complete :
    (os : List Owner) (account : String)
    → Any (λ o. o.service_account ≡ account) os
    → account ≢ ""
    → is_owner os account ≡ true
is_owner_complete [] account m h = elim m [ ]
is_owner_complete (o ∷ os) account (inl e) h =
    ground (arith, eq_iff o.service_account account, eq_iff o.service_account "")
is_owner_complete (o ∷ os) account (inr m) h = ground (
  arith,
  is_owner_complete os account m h,
  eq_iff o.service_account account,
  eq_iff o.service_account "",
)

append-eq-nil : (xs ys : List String) → xs ++ ys ≡ [] → (xs ≡ []) × (ys ≡ [])
append-eq-nil [] ys h = (refl, h)
append-eq-nil (x ∷ xs) ys h = cc

module _ (cfg : DashboardConfig) (monitor account : String) where
  IsPermitted-of_no_errors :
      (status : ReportStatus)
      → component_errors (get_component_by_slug cfg status.component_slug) monitor account status
        ≡ []
      → IsPermitted cfg monitor account status
  IsPermitted-of_no_errors status h = go (get_component_by_slug cfg status.component_slug) refl h
    where
      go_monitoring :
          (c : Component) (sub : SubComponent) (m : Option Monitoring)
          → get_component_by_slug cfg status.component_slug ≡ some c
          → get_sub_component_by_slug c status.sub_component_slug ≡ some sub
          → Any (λ o. o.service_account ≡ account) c.owners × (account ≢ "")
          → sub.monitoring ≡ m
          → monitored_by m monitor ≡ true
          → IsPermitted cfg monitor account status
      go_monitoring c sub none e f o g h = cc
      go_monitoring c sub (some m) e f o g h = record {
        component = c;
        sub = sub;
        monitoring = m;
        found = e;
        found_sub = f;
        owned = o.0;
        named = o.1;
        watched = g;
        by_monitor = ground (arith, eq_iff m.component_monitor monitor);
      }

      go_sub :
          (c : Component) (sub : Option SubComponent)
          → get_component_by_slug cfg status.component_slug ≡ some c
          → get_sub_component_by_slug c status.sub_component_slug ≡ sub
          → Any (λ o. o.service_account ≡ account) c.owners × (account ≢ "")
          → sub_component_errors sub monitor status ≡ []
          → IsPermitted cfg monitor account status
      go_sub c none e f o h = cc
      go_sub c (some sub) e f o h = go_monitoring c sub sub.monitoring e f o refl (ground arith)

      go :
          (c : Option Component)
          → get_component_by_slug cfg status.component_slug ≡ c
          → component_errors c monitor account status ≡ []
          → IsPermitted cfg monitor account status
      go none e h = cc
      go (some c) e h =
          go_sub c (get_sub_component_by_slug c status.sub_component_slug) e refl
            (is_owner_sound c.owners account (ground arith)) (ground arith)

  no_errors_of_permitted :
      (status : ReportStatus)
      → IsPermitted cfg monitor account status
      → component_errors (get_component_by_slug cfg status.component_slug) monitor account status
        ≡ []
  no_errors_of_permitted status p = rw p.found (
      rw (is_owner_complete p.component.owners account p.owned p.named) (
        rw p.found_sub (
          rw p.watched
            (ground (arith, eq_iff p.monitoring.component_monitor monitor, p.by_monitor)))))

  IsPermitted-All :
      (ss : List ReportStatus)
      → validation_errors cfg monitor account ss ≡ []
      → All (IsPermitted cfg monitor account) ss
  unfolding validation_errors
  IsPermitted-All [] h = tt
  IsPermitted-All (s ∷ ss) h =
      let (a, b) = append-eq-nil _ (validation_errors cfg monitor account ss) h in
      (IsPermitted-of_no_errors s a, IsPermitted-All ss b)

  no_errors-All :
      (ss : List ReportStatus)
      → All (IsPermitted cfg monitor account) ss
      → validation_errors cfg monitor account ss ≡ []
  unfolding validation_errors
  no_errors-All [] h = refl
  no_errors-All (s ∷ ss) h = rw (no_errors_of_permitted s h.0) (no_errors-All ss h.1)

-- A report is accepted exactly when each of its statuses is on a configured sub-component, comes
-- from the monitor that watches it, and is sent by a service account that owns its component.
pub validate_request_iff :
    (cfg : DashboardConfig) (req : ReportRequest) (account : String)
    → (validate_request cfg req account ≡ [])
      ↔ All (IsPermitted cfg req.component_monitor account) req.statuses
unfolding validate_request
validate_request_iff cfg req account = (
  IsPermitted-All cfg req.component_monitor account req.statuses,
  no_errors-All cfg req.component_monitor account req.statuses,
)
