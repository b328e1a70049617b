-- ===== src/Dashboard/Report/Invariant.antt =====
-- A monitor that reports over and over never has two open outages on one sub-component.
use ship_status_dash.Base.{
  ℕ, ◌≤◌, String, ◌≡◌, refl, ◌∙◌, Bool, true, false, Option, none, some, List, [], ◌∷◌, Exec, arith,
  count, Result-cases, inl, inr, Bool-cases, ◌>>=◌, ◌==◌, nat_eq, string_eq,
}
use ship_status_dash.Types.Outage.{Outage, Reason}
use ship_status_dash.Types.Config.{
  SubComponent, Component, get_component_by_slug, get_sub_component_by_slug,
}
use ship_status_dash.Types.Severity.{to_severity, status_healthy}
use ship_status_dash.Types.Outage.Validate.{validate}
use ship_status_dash.Env.{Error}
use ship_status_dash.Env.Lawful.{Tables}
use ship_status_dash.Repositories.Outages.{round_outage_times, reported_by}
use ship_status_dash.Dashboard.Services.{Services}
use ship_status_dash.Dashboard.Services.Lawful.{AreLawful}
use ship_status_dash.Dashboard.Report.{
  ReportStatus, ReportRequest, new_outage, resolve_each, process_healthy, process_unhealthy,
  process_found, process_status, process_each, process, auto_resolves, open_outage,
  open_with_reasons, process_in, process_in_component, process_active,
}
use ship_status_dash.Dashboard.Report.Counts.{
  count-put_ended, count-append_new, count_of_none, round_ended, round_names,
}

-- Every open outage was opened by its creator alone on its sub-component.
abbrev pub AtMostOne : List Outage → Type 0
AtMostOne rows = (c sub by : String) → count (reported_by c sub by) rows ≤ 1

module _ {S : Type 0} (v : Services S) (view : S → Tables) (law : AreLawful v view) where
  abbrev Good : S → Type 0
  Good s = AtMostOne (view s).outages

  -- An action that keeps the invariant, whether it fails or not.
  abbrev KeepsGood : {A : Type 0} → Exec S Error A → Type 0
  KeepsGood m = (s : S) → Good s → Good (m s).1

  update_ended-Good :
      (now : ℕ) (user : String) (o : Outage)
      → KeepsGood (
          v.outage_manager.update_outage
            (record o { end_time = record { time = now; valid = true } })
            user)
  update_ended-Good now user o s g c sub by =
      let ended : Outage = record o { end_time = record { time = now; valid = true } } in
      elim (Result-cases (v.outage_manager.update_outage ended user s).0) [
        | inl (o', e) ↦
            let r = law.manager.update_ok ended o' user s e in
            rw r.outages (
              omega (
                arith,
                count-put_ended c sub by (round_outage_times ended) (view s).outages
                    (round_ended o now),
                g c sub by,
              ))
        | inr (x, e) ↦ rw (law.manager.update_err ended user x s e) (g c sub by)
      ]

  create_new-Good :
      (o : Outage) (reasons : List Reason) (user : String) (s : S)
      → count (reported_by o.component_name o.sub_component_name o.created_by) (view s).outages ≡ 0
      → Good s
      → Good (v.outage_manager.create_outage o reasons user s).1
  create_new-Good o reasons user s none_yet g c sub by =
      elim (Result-cases (v.outage_manager.create_outage o reasons user s).0) [
        | inl (o', e) ↦
            let a = law.manager.create_ok o o' reasons user s e in
            let n = round_names o in
            rw a.outages (
              count-append_new c sub by o' (view s).outages (rw (a.only_id, n.0, n.1, n.2) none_yet)
                (g c sub by))
        | inr (x, e) ↦ rw (law.manager.create_err o reasons user x s e) (g c sub by)
      ]

  resolve_each-Good :
      (now : ℕ) (user : String) (os : List Outage) → KeepsGood (resolve_each v now user os)
  unfolding resolve_each
  resolve_each-Good now user [] s g = g
  resolve_each-Good now user (o ∷ os) s g =
      resolve_each-Good now user os _ (update_ended-Good now user o s g)

  process_healthy-Good :
      (monitor : String) (sub : SubComponent) (now : ℕ) (active : List Outage)
      → KeepsGood (process_healthy v monitor sub now active)
  unfolding process_healthy
  process_healthy-Good monitor sub now [] s g = g
  process_healthy-Good monitor sub now (o ∷ os) s g =
      elim (Bool-cases (auto_resolves sub.monitoring)) [
        | inl on ↦ rw on (resolve_each-Good now monitor (o ∷ os) s g)
        | inr off ↦ rw off g
      ]

  open_outage-Good :
      (valid : String × Bool) (o : Outage) (reasons : List Reason) (s : S)
      → count (reported_by o.component_name o.sub_component_name o.created_by) (view s).outages ≡ 0
      → Good s
      → Good (open_outage v valid o reasons o.created_by s).1
  open_outage-Good (message, false) o reasons s none_yet g = g
  open_outage-Good (message, true) o reasons s none_yet g =
      create_new-Good o reasons o.created_by s none_yet g

  open_with_reasons-Good :
      (reasons : List Reason) (o : Outage) (s : S)
      → count (reported_by o.component_name o.sub_component_name o.created_by) (view s).outages ≡ 0
      → Good s
      → Good (open_with_reasons v reasons o o.created_by s).1
  open_with_reasons-Good [] o s none_yet g = g
  open_with_reasons-Good (r ∷ rs) o s none_yet g =
      open_outage-Good (validate o) o (r ∷ rs) s none_yet g

  process_unhealthy-Good :
      (monitor : String) (sub : SubComponent) (status : ReportStatus) (now : ℕ)
      (active : List Outage) (s : S)
      → (active ≡ []
          → count
              (reported_by status.component_slug status.sub_component_slug monitor)
              (view s).outages
            ≡ 0)
      → Good s
      → Good (process_unhealthy v monitor sub status now active s).1
  unfolding process_unhealthy new_outage
  process_unhealthy-Good monitor sub status now (o ∷ os) s h g = g
  process_unhealthy-Good monitor sub status now [] s h g =
      elim (Bool-cases (to_severity status.status == "")) [
        | inl invalid ↦ rw invalid g
        | inr known ↦ rw known (
            open_with_reasons-Good status.reasons
              (new_outage monitor sub status (to_severity status.status) now) s (h refl) g)
      ]

  Good-of_eq : (s t : S) → view t ≡ view s → Good s → Good t
  Good-of_eq s t e g = rw e g

  process_active-Good :
      (monitor : String) (sub : SubComponent) (status : ReportStatus) (now : ℕ)
      → KeepsGood (process_active v monitor sub status now)
  process_active-Good monitor sub status now s g =
      let query =
        v.outage_manager.get_active_outages_created_by status.component_slug
          status.sub_component_slug monitor in
      let same =
        law.manager.created_by_keeps status.component_slug status.sub_component_slug monitor s in
      let g' = Good-of_eq s (query s).1 same g in
      elim (Result-cases (query s).0) [
        | inl (active, e) ↦
            let none_yet : active ≡ []
                → count (reported_by status.component_slug status.sub_component_slug monitor)
                    (view (query s).1).outages
                  ≡ 0 =
              λ empty. rw same (
                count_of_none status.component_slug status.sub_component_slug monitor
                  (view s).outages
                  (rw empty at (
                    law.manager.created_by_rows status.component_slug status.sub_component_slug
                      monitor s active e))) in
            rw (e, ◌>>=◌)
              (elim (Bool-cases (status.status == status_healthy)) [
                | inl healthy ↦
                    rw healthy (process_healthy-Good monitor sub now active (query s).1 g')
                | inr unhealthy ↦
                    rw unhealthy
                      (process_unhealthy-Good monitor sub status now active (query s).1 none_yet g')
              ])
        | inr (x, e) ↦ rw (e, ◌>>=◌) g'
      ]

  process_found-Good :
      (monitor : String) (sub : SubComponent) (status : ReportStatus)
      → KeepsGood (process_found v monitor sub status)
  process_found-Good monitor sub status s g =
      let (now, t) = v.now s in
      let ping =
        v.ping_repo.upsert_component_report_ping status.component_slug status.sub_component_slug
          now in
      let g' =
        Good-of_eq s (ping t).1
          (law.upsert_keeps status.component_slug status.sub_component_slug now t ∙ law.now_keeps s)
          g in
      elim (Result-cases (ping t).0) [
        | inl (_, e) ↦ rw (e, ◌>>=◌) (process_active-Good monitor sub status now (ping t).1 g')
        | inr (x, e) ↦ rw (e, ◌>>=◌) g'
      ]

  process_in_component-Good :
      (monitor : String) (sub : Option SubComponent) (status : ReportStatus)
      → KeepsGood (process_in_component v monitor sub status)
  process_in_component-Good monitor none status s g = g
  process_in_component-Good monitor (some sub) status s g =
      process_found-Good monitor sub status s g

  process_in-Good :
      (monitor : String) (component : Option Component) (status : ReportStatus)
      → KeepsGood (process_in v monitor component status)
  process_in-Good monitor none status s g = g
  process_in-Good monitor (some component) status s g =
      process_in_component-Good monitor
        (get_sub_component_by_slug component status.sub_component_slug) status s g

  process_each-Good :
      (monitor : String) (statuses : List ReportStatus)
      → KeepsGood (process_each v monitor statuses)
  unfolding process_each process_status
  process_each-Good monitor [] s g = g
  process_each-Good monitor (status ∷ statuses) s g =
      let component = get_component_by_slug (v.config s) status.component_slug in
      let round = process_in v monitor component status in
      let g' = process_in-Good monitor component status s g in
      elim (Result-cases (round s).0) [
        | inl (_, e) ↦ rw (e, ◌>>=◌) (process_each-Good monitor statuses (round s).1 g')
        | inr (x, e) ↦ rw (e, ◌>>=◌) g'
      ]

  -- Over lawful services: if no creator has two open outages on one sub-component, none has after any
  -- report has been processed, whatever the report says, and whether processing succeeds or fails.
  pub process-AtMostOne :
      (req : ReportRequest) (s : S)
      → AtMostOne (view s).outages
      → AtMostOne (view (process v req s).1).outages
  unfolding process
  process-AtMostOne req s g = process_each-Good req.component_monitor req.statuses s g
