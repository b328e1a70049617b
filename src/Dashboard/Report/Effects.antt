-- ===== src/Dashboard/Report/Effects.antt =====
-- A report of a trouble opens an outage where its monitor has none open, and else changes nothing.
use ship_status_dash.Base.{
  some, arith, sym, ◌&&◌, ◌>>=◌, ap, ◌∙◌, ◌⊎◌, ◌++◌, map, count, not, nat_eq, ℕ, String, ◌≡◌, refl,
  ◌≢◌, Bool, true, false, List, [], ◌∷◌, ok, eq_iff, inl, inr, Bool-cases, if◌then◌else◌, ◌==◌,
  string_eq, trim_space,
}
use ship_status_dash.Types.Severity.{
  Status, severity_down, severity_degraded, severity_capacity_exhausted, severity_suspected,
  status_down, status_degraded, status_healthy, status_capacity_exhausted, status_suspected,
  to_severity, is_valid_severity,
}
use ship_status_dash.Types.Outage.{Outage, Reason, bare, owned}
use ship_status_dash.Types.Outage.Validate.{validate, IsAcceptable, validate_iff}
use ship_status_dash.Types.Config.{
  SubComponent, Component, get_component_by_slug, get_sub_component_by_slug,
}
use ship_status_dash.Env.Lawful.{Tables}
use ship_status_dash.Manager.{Appended, Logged}
use ship_status_dash.Repositories.Outages.{reported_by, truncate_second, round_outage_times}
use mathlib.Core.List.{append-nil}
use ship_status_dash.Dashboard.Services.{Services}
use ship_status_dash.Dashboard.Services.Lawful.{AreLawful}
use ship_status_dash.Dashboard.Report.{
  ReportStatus, new_outage, process_unhealthy, open_with_reasons, process_active, process_status,
}

to_severity_healthy : to_severity status_healthy ≡ ""
unfolding to_severity
to_severity_healthy = refl

valid_if :
    (a b c d : Bool)
    → (if a
        then severity_down
        else if b
        then severity_degraded
        else if c
        then severity_capacity_exhausted
        else if d
        then severity_suspected
        else "")
      ≢ ""
    → is_valid_severity (
        if a
        then severity_down
        else if b
        then severity_degraded
        else if c
        then severity_capacity_exhausted
        else if d
        then severity_suspected
        else "")
      ≡ true
unfolding is_valid_severity
valid_if true b c d h = refl
valid_if false true c d h = refl
valid_if false false true d h = refl
valid_if false false false true h = refl
valid_if false false false false h = absurd (h refl)

to_severity_valid : (s : Status) → to_severity s ≢ "" → is_valid_severity (to_severity s) ≡ true
unfolding to_severity
to_severity_valid s h =
    valid_if (s == status_down) (s == status_degraded) (s == status_capacity_exhausted)
      (s == status_suspected) h

new_outage-IsAcceptable :
    (monitor : String) (sub : SubComponent) (status : ReportStatus) (now : ℕ)
    → to_severity status.status ≢ ""
    → monitor ≢ ""
    → now ≢ 0
    → IsAcceptable (new_outage monitor sub status (to_severity status.status) now)
unfolding new_outage trim_space
new_outage-IsAcceptable monitor sub status now h k n = record {
  severity = to_severity_valid status.status h;
  start_time = n;
  description = λ e. cc ((eq_iff _ _).1 e);
  discovered_from = λ e. cc e;
  created_by = k;
}

-- How many outages of a monitor are open where a status reports.
abbrev pub open_of : String → ReportStatus → List Outage → ℕ
open_of monitor status rows =
    count (reported_by status.component_slug status.sub_component_slug monitor) rows

-- Services that do not fail.
pub record AreUp {S : Type 0} (v : Services S) : Type 0 where
  pub time : (s : S) → (v.now s).0 ≢ 0
  pub ping :
      (c sub : String) (t : ℕ) (s : S)
      → (v.ping_repo.upsert_component_report_ping c sub t s).0 ≡ ok tt
  pub query :
      (c sub by : String) (s : S)
      → (l : List Outage) × ((v.outage_manager.get_active_outages_created_by c sub by s).0 ≡ ok l)
  pub create :
      (o : Outage) (reasons : List Reason) (user : String) (s : S)
      → validate o ≡ ("", true)
      → (o' : Outage) × ((v.outage_manager.create_outage o reasons user s).0 ≡ ok o')

module _ {S : Type 0} (v : Services S) (view : S → Tables) (law : AreLawful v view) where
  open_with_reasons-Appended :
      (o : Outage) (reasons : List Reason) (monitor : String) (s : S) (o' : Outage)
      → validate o ≡ ("", true)
      → reasons ≢ []
      → (v.outage_manager.create_outage o reasons monitor s).0 ≡ ok o'
      → ((open_with_reasons v reasons o monitor s).0 ≡ ok tt)
        × Appended view o o' reasons monitor s (open_with_reasons v reasons o monitor s).1
  open_with_reasons-Appended o [] monitor s o' valid some_reason created = absurd (some_reason refl)
  open_with_reasons-Appended o (r ∷ rs) monitor s o' valid some_reason created =
      rw valid (refl, law.manager.create_ok o o' (r ∷ rs) monitor s created)

  process_unhealthy-Appended :
      (monitor : String) (sub : SubComponent) (status : ReportStatus) (now : ℕ) (s : S)
      (o' : Outage)
      → to_severity status.status ≢ ""
      → status.reasons ≢ []
      → monitor ≢ ""
      → now ≢ 0
      → (v.outage_manager.create_outage
          (new_outage monitor sub status (to_severity status.status) now)
          status.reasons
          monitor
          s).0
        ≡ ok o'
      → ((process_unhealthy v monitor sub status now [] s).0 ≡ ok tt)
        × Appended view
            (new_outage monitor sub status (to_severity status.status) now)
            o'
            status.reasons
            monitor
            s
            (process_unhealthy v monitor sub status now [] s).1
  unfolding process_unhealthy
  process_unhealthy-Appended monitor sub status now s o' h reasons k n created =
      let severity = to_severity status.status in
      let o = new_outage monitor sub status severity now in
      let valid : validate o ≡ ("", true) =
        (validate_iff o).1 (new_outage-IsAcceptable monitor sub status now h k n) in
      elim (Bool-cases (severity == "")) [
        | inl empty ↦ absurd (h ((eq_iff severity "").0 empty))
        | inr known ↦
            rw known
              (open_with_reasons-Appended o status.reasons monitor s o' valid reasons created)
      ]

-- The outage that a status reports was opened: a row, its reasons and an audit entry were added.
pub record IsOpened {S : Type 0} (view : S → Tables) (monitor : String) (sub : SubComponent)
    (status : ReportStatus) (now : ℕ) (s s' : S) : Type 0 where
  pub row : Outage
  pub outages : (view s').outages ≡ (view s).outages ++ (row ∷ [])
  pub fresh : count (λ r. r.id == row.id) (view s).outages ≡ 0
  pub component_name : row.component_name ≡ status.component_slug
  pub sub_component_name : row.sub_component_name ≡ status.sub_component_slug
  pub severity : row.severity ≡ to_severity status.status
  pub start_time : row.start_time ≡ truncate_second now
  pub has_no_end : row.end_time.valid ≡ false
  pub confirmed : row.confirmed_at.valid ≡ not sub.requires_confirmation
  pub created_by : row.created_by ≡ monitor
  pub discovered_from : row.discovered_from ≡ "component-monitor"
  pub reasons : (view s').reasons ≡ (view s).reasons ++ map (owned row.id) status.reasons
  pub logged : Logged view "CREATE" monitor row.id s s'

-- What a report in which nothing fails comes to, on the outages of its monitor that are open.
abbrev pub IsHandled :
    {S : Type 0} → (S → Tables) → String → SubComponent → ReportStatus → ℕ → S → S → Type 0
IsHandled view monitor sub status now s s' =
    (open_of monitor status (view s).outages ≢ 0) × (view s' ≡ view s)
    ⊎ (open_of monitor status (view s).outages ≡ 0) × IsOpened view monitor sub status now s s'

module _ {S : Type 0} (v : Services S) (view : S → Tables) (law : AreLawful v view)
    (up : AreUp v) where
  process_unhealthy-IsOpened :
      (monitor : String) (sub : SubComponent) (status : ReportStatus) (now : ℕ) (s : S)
      → to_severity status.status ≢ ""
      → status.reasons ≢ []
      → monitor ≢ ""
      → now ≢ 0
      → ((process_unhealthy v monitor sub status now [] s).0 ≡ ok tt)
        × IsOpened view monitor sub status now s (process_unhealthy v monitor sub status now [] s).1
  unfolding new_outage round_outage_times
  process_unhealthy-IsOpened monitor sub status now s h reasons k n =
      let o = new_outage monitor sub status (to_severity status.status) now in
      let (o', created) =
        up.create o status.reasons monitor s
          ((validate_iff o).1 (new_outage-IsAcceptable monitor sub status now h k n)) in
      let (done, a) =
        process_unhealthy-Appended v view law monitor sub status now s o' h reasons k n created in
      (
        done,
        record {
          row = bare o';
          outages = a.outages;
          fresh = a.fresh;
          component_name = ap (λ x. x.component_name) a.only_id;
          sub_component_name = ap (λ x. x.sub_component_name) a.only_id;
          severity = ap (λ x. x.severity) a.only_id;
          start_time = ap (λ x. x.start_time) a.only_id;
          has_no_end = ap (λ x. x.end_time.valid) a.only_id;
          confirmed = ap (λ x. x.confirmed_at.valid) a.only_id ∙ ground arith;
          created_by = ap (λ x. x.created_by) a.only_id;
          discovered_from = ap (λ x. x.discovered_from) a.only_id;
          reasons = a.all_reasons ∙ ap (λ l. l ++ map (owned o'.id) status.reasons) (append-nil _);
          logged = a.logged;
        },
      )

  IsOpened-of_eq :
      (monitor : String) (sub : SubComponent) (status : ReportStatus) (now : ℕ) (s t t' : S)
      → view t ≡ view s
      → IsOpened view monitor sub status now t t'
      → IsOpened view monitor sub status now s t'
  IsOpened-of_eq monitor sub status now s t t' e a = record {
    row = a.row;
    outages = cc (e, a.outages);
    fresh = cc (e, a.fresh);
    component_name = a.component_name;
    sub_component_name = a.sub_component_name;
    severity = a.severity;
    start_time = a.start_time;
    has_no_end = a.has_no_end;
    confirmed = a.confirmed;
    created_by = a.created_by;
    discovered_from = a.discovered_from;
    reasons = cc (e, a.reasons);
    logged = record {
      entry = a.logged.entry;
      audit_logs = cc (e, a.logged.audit_logs);
      outage_id = a.logged.outage_id;
      user_name = a.logged.user_name;
      operation_text = a.logged.operation_text;
    };
  }

  count-and_true : (q : Outage → Bool) (l : List Outage) → count (λ o. q o && true) l ≡ count q l
  count-and_true q [] = refl
  count-and_true q (o ∷ os) = ground (arith, count-and_true q os)

  module _ (monitor : String) (sub : SubComponent) (status : ReportStatus)
      (severe : to_severity status.status ≢ "") (some_reason : status.reasons ≢ [])
      (named : monitor ≢ "") where
    by_active :
        (now : ℕ) (s t : S) (active : List Outage)
        → now ≢ 0
        → view t ≡ view s
        → count (λ _. true) active ≡ open_of monitor status (view s).outages
        → ((process_unhealthy v monitor sub status now active t).0 ≡ ok tt)
          × IsHandled view monitor sub status now s
              (process_unhealthy v monitor sub status now active t).1
    unfolding process_unhealthy
    by_active now s t [] n e c =
        let (done, opened) =
          process_unhealthy-IsOpened monitor sub status now t severe some_reason named n in
        (done, inr (sym c, IsOpened-of_eq monitor sub status now s t _ e opened))
    by_active now s t (o ∷ os) n e c = (refl, inl (λ zero. omega (arith, zero, c), e))

    process_active-IsHandled :
        (now : ℕ) (s t : S)
        → now ≢ 0
        → view t ≡ view s
        → ((process_active v monitor sub status now t).0 ≡ ok tt)
          × IsHandled view monitor sub status now s (process_active v monitor sub status now t).1
    process_active-IsHandled now s t n kept =
        let c = status.component_slug in
        let k = status.sub_component_slug in
        let query = v.outage_manager.get_active_outages_created_by c k monitor in
        let (active, e) = up.query c k monitor t in
        let same : view (query t).1 ≡ view s = law.manager.created_by_keeps c k monitor t ∙ kept in
        let counted : count (λ _. true) active ≡ open_of monitor status (view s).outages =
          law.manager.created_by_rows c k monitor t active e (λ _. true)
          ∙ count-and_true (reported_by c k monitor) (view t).outages
          ∙ ap (λ w. open_of monitor status w.outages) kept in
        let unhealthy : (status.status == status_healthy) ≡ false =
          elim (Bool-cases (status.status == status_healthy)) [
            | inl healthy ↦ absurd (
                severe (
                  ap to_severity ((eq_iff status.status status_healthy).0 healthy)
                  ∙ to_severity_healthy))
            | inr other ↦ other
          ] in
        rw (e, ◌>>=◌) (rw unhealthy (by_active now s (query t).1 active n same counted))

    -- Over lawful services that do not fail: a report of a trouble with reasons, from a monitor with a
    -- name, on a configured sub-component, succeeds. If the monitor has an outage open there, nothing
    -- changes; if it has none, one outage is opened, with its reasons and an audit entry, that says what
    -- the report says.
    pub process_status-IsHandled :
        (component : Component) (s : S)
        → get_component_by_slug (v.config s) status.component_slug ≡ some component
        → get_sub_component_by_slug component status.sub_component_slug ≡ some sub
        → ((process_status v monitor status s).0 ≡ ok tt)
          × IsHandled view monitor sub status (v.now s).0 s (process_status v monitor status s).1
    unfolding process_status
    process_status-IsHandled component s found found_sub =
        let (now, t) = v.now s in
        let ping = v.ping_repo.upsert_component_report_ping in
        let kept : view (ping status.component_slug status.sub_component_slug now t).1 ≡ view s =
          law.upsert_keeps status.component_slug status.sub_component_slug now t
          ∙ law.now_keeps s in
        rw (found, found_sub)
          (rw (up.ping status.component_slug status.sub_component_slug now t, ◌>>=◌)
            (process_active-IsHandled now s _ (up.time s) kept))
