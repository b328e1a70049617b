-- ===== src/Dashboard/Absent/Invariant.antt =====
-- However often the check for absent reports runs, it opens no second outage on a sub-component.
use ship_status_dash.Base.{
  ℕ, ◌≤◌, String, ◌≡◌, refl, ◌∙◌, Bool, true, false, ◌&&◌, Option, none, some, List, [], ◌∷◌, ◌++◌,
  Exec, Result, ok, err, arith, count, count-append, Result-cases, inl, inr, eq_iff, Bool-cases,
  ◌>>=◌, nat_eq, string_eq,
}
use ship_status_dash.Types.Outage.{Outage, bare}
use ship_status_dash.Types.Outage.Validate.{validate}
use ship_status_dash.Types.Config.{Monitoring, SubComponent, Component}
use ship_status_dash.Env.{Error}
use ship_status_dash.Env.Lawful.{Tables, put_row}
use ship_status_dash.Repositories.Outages.{round_outage_times, discovered_by}
use ship_status_dash.Dashboard.Services.{Services}
use ship_status_dash.Dashboard.Services.Lawful.{AreLawful}
use ship_status_dash.Dashboard.Report.{resolve_each}
use ship_status_dash.Dashboard.Report.Counts.{count-and_true, round_ended}
use ship_status_dash.Dashboard.Absent.{
  absent_report_source, absent_report_creator, absence, absent_outage, create_absent, react,
  check_ping, check_frequency, check_monitoring, check_sub_components, check_components,
  check_for_absent_reports,
}

-- The open outages on a sub-component that the check found.
abbrev pub found_on : String → String → Outage → Bool
found_on c sub = discovered_by c sub absent_report_source

abbrev pub AtMostOneAbsence : List Outage → Type 0
AtMostOneAbsence rows = (c sub : String) → count (found_on c sub) rows ≤ 1

count-put_ended :
    (c sub : String) (o : Outage) (rows : List Outage)
    → o.end_time.valid ≡ true
    → count (found_on c sub) (put_row o rows) ≤ count (found_on c sub) rows
count-put_ended c sub o [] h = ground arith
count-put_ended c sub o (r ∷ rs) h = ground (arith, count-put_ended c sub o rs)

found_on_lem :
    (c sub : String) (o : Outage)
    → found_on c sub o ≡ true
    → (o.component_name ≡ c) × (o.sub_component_name ≡ sub)
found_on_lem c sub o h = ground (arith, eq_iff o.component_name c, eq_iff o.sub_component_name sub)

count-append_new :
    (c sub : String) (o : Outage) (rows : List Outage)
    → count (found_on o.component_name o.sub_component_name) rows ≡ 0
    → count (found_on c sub) rows ≤ 1
    → count (found_on c sub) (rows ++ (bare o ∷ [])) ≤ 1
count-append_new c sub o rows none_yet h = elim (Bool-cases (found_on c sub o)) [
  | inl here ↦
      let (e, f) = found_on_lem c sub o here in
      let z : count (found_on c sub) rows ≡ 0 = rw (← e, ← f) none_yet in
      ground (arith, count-append (found_on c sub) rows (bare o ∷ []))
  | inr away ↦ ground (arith, count-append (found_on c sub) rows (bare o ∷ []))
]

count_of_none :
    (c sub : String) (rows : List Outage)
    → ((p : Outage → Bool) → count (λ o. p (bare o)) [] ≡ count (λ o. found_on c sub o && p o) rows)
    → count (found_on c sub) rows ≡ 0
count_of_none c sub rows h = omega (arith, h (λ _. true), count-and_true (found_on c sub) rows)

round_names :
    (o : Outage)
    → ((round_outage_times o).component_name ≡ o.component_name)
      × ((round_outage_times o).sub_component_name ≡ o.sub_component_name)
unfolding round_outage_times
round_names o = (refl, refl)

module _ {S : Type 0} (v : Services S) (view : S → Tables) (law : AreLawful v view) where
  abbrev Good : S → Type 0
  Good s = AtMostOneAbsence (view s).outages

  -- An action that keeps the invariant, whether it fails or not.
  abbrev KeepsGood : {A : Type 0} → Exec S Error A → Type 0
  KeepsGood m = (s : S) → Good s → Good (m s).1

  update_ended-Good :
      (now : ℕ) (user : String) (o : Outage)
      → KeepsGood (
          v.outage_manager.update_outage
            (record o { end_time = record { time = now; valid = true } })
            user)
  update_ended-Good now user o s g c sub =
      let ended : Outage = record o { end_time = record { time = now; valid = true } } in
      elim (Result-cases (v.outage_manager.update_outage ended user s).0) [
        | inl (o', e) ↦
            let r = law.manager.update_ok ended o' user s e in
            rw r.outages (
              omega (
                arith,
                count-put_ended c sub (round_outage_times ended) (view s).outages
                    (round_ended o now),
                g c sub,
              ))
        | inr (x, e) ↦ rw (law.manager.update_err ended user x s e) (g c sub)
      ]

  resolve_each-Good :
      (now : ℕ) (user : String) (os : List Outage) → KeepsGood (resolve_each v now user os)
  unfolding resolve_each
  resolve_each-Good now user [] s g = g
  resolve_each-Good now user (o ∷ os) s g =
      resolve_each-Good now user os _ (update_ended-Good now user o s g)

  create_absent-Good :
      (valid : String × Bool) (o : Outage) (s : S)
      → count (found_on o.component_name o.sub_component_name) (view s).outages ≡ 0
      → Good s
      → Good (create_absent v valid o s).1
  create_absent-Good (message, false) o s none_yet g c sub = g c sub
  create_absent-Good (message, true) o s none_yet g c sub =
      elim (Result-cases (v.outage_manager.create_outage o [] absent_report_creator s).0) [
        | inl (o', e) ↦
            let a = law.manager.create_ok o o' [] absent_report_creator s e in
            let n = round_names o in
            rw a.outages (
              count-append_new c sub o' (view s).outages (rw (a.only_id, n.0, n.1) none_yet)
                (g c sub))
        | inr (x, e) ↦ rw (law.manager.create_err o [] absent_report_creator x s e) (g c sub)
      ]

  react-Good :
      (component : Component) (sub : SubComponent) (m : Monitoring) (now : ℕ)
      (reason : Option String) (active : List Outage) (s : S)
      → (active ≡ [] → count (found_on component.slug sub.slug) (view s).outages ≡ 0)
      → Good s
      → Good (react v component sub m now reason active s).1
  unfolding absent_outage
  react-Good component sub m now none active s h g = elim (Bool-cases m.auto_resolve) [
    | inl on ↦ rw on (resolve_each-Good now m.component_monitor active s g)
    | inr off ↦ rw off g
  ]
  react-Good component sub m now (some reason) (o ∷ os) s h g = g
  react-Good component sub m now (some reason) [] s h g =
      let o = absent_outage component sub reason now in
      create_absent-Good (validate o) o s (h refl) g

  Good-of_eq : (s t : S) → view t ≡ view s → Good s → Good t
  Good-of_eq s t e g = rw e g

  check_ping-Good :
      (component : Component) (sub : SubComponent) (m : Monitoring) (threshold : ℕ)
      (last_ping : Option ℕ)
      → KeepsGood (check_ping v component sub m threshold last_ping)
  check_ping-Good component sub m threshold last_ping s g =
      let (now, t) = v.now s in
      let query =
        v.outage_manager.get_active_outages_discovered_from component.slug sub.slug
          absent_report_source in
      let same =
        law.manager.discovered_from_keeps component.slug sub.slug absent_report_source t
        ∙ law.now_keeps s in
      let g' = Good-of_eq s (query t).1 same g in
      elim (Result-cases (query t).0) [
        | inl (active, e) ↦
            let none_yet : active ≡ []
                → count (found_on component.slug sub.slug) (view (query t).1).outages ≡ 0 =
              λ empty.
                rw
                  (law.manager.discovered_from_keeps component.slug sub.slug absent_report_source t)
                  (count_of_none component.slug sub.slug (view t).outages (
                    rw empty at (
                      law.manager.discovered_from_rows component.slug sub.slug absent_report_source
                        t active e))) in
            rw (e, ◌>>=◌)
              (react-Good component sub m now (absence v.format_duration threshold now last_ping)
                active (query t).1 none_yet g')
        | inr (x, e) ↦ rw (e, ◌>>=◌) g'
      ]

  check_frequency-Good :
      (component : Component) (sub : SubComponent) (m : Monitoring) (frequency : Result Error ℕ)
      → KeepsGood (check_frequency v component sub m frequency)
  check_frequency-Good component sub m (err e) s g = g
  check_frequency-Good component sub m (ok frequency) s g =
      let ping = v.ping_repo.get_last_ping_time component.slug sub.slug in
      let g' = Good-of_eq s (ping s).1 (law.last_ping_keeps component.slug sub.slug s) g in
      elim (Result-cases (ping s).0) [
        | inl (last, e) ↦ rw (e, ◌>>=◌) (check_ping-Good component sub m _ last (ping s).1 g')
        | inr (x, e) ↦ rw (e, ◌>>=◌) g'
      ]

  check_monitoring-Good :
      (component : Component) (sub : SubComponent) (m : Option Monitoring)
      → KeepsGood (check_monitoring v component sub m)
  check_monitoring-Good component sub none s g = g
  check_monitoring-Good component sub (some m) s g =
      check_frequency-Good component sub m (v.parse_duration m.frequency) s g

  check_sub_components-Good :
      (component : Component) (subs : List SubComponent)
      → KeepsGood (check_sub_components v component subs)
  unfolding check_sub_components
  check_sub_components-Good component [] s g = g
  check_sub_components-Good component (sub ∷ subs) s g =
      check_sub_components-Good component subs _
        (check_monitoring-Good component sub sub.monitoring s g)

  check_components-Good : (cs : List Component) → KeepsGood (check_components v cs)
  unfolding check_components
  check_components-Good [] s g = g
  check_components-Good (c ∷ cs) s g =
      let here = check_sub_components v c c.subcomponents in
      let g' = check_sub_components-Good c c.subcomponents s g in
      elim (Result-cases (here s).0) [
        | inl (_, e) ↦ rw (e, ◌>>=◌) (check_components-Good cs (here s).1 g')
        | inr (x, e) ↦ rw (e, ◌>>=◌) g'
      ]

  -- Over lawful services: if no sub-component has two open outages that the check found, none has
  -- after it runs again, whatever fails on the way.
  pub check-AtMostOneAbsence :
      (s : S)
      → AtMostOneAbsence (view s).outages
      → AtMostOneAbsence (view (check_for_absent_reports v s).1).outages
  unfolding check_for_absent_reports
  check-AtMostOneAbsence s g = check_components-Good (v.config s).components s g
