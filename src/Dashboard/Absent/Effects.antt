-- ===== src/Dashboard/Absent/Effects.antt =====
-- The check for absent reports comes to its end whatever fails on the way.
use mathlib.Core.List.{foldl}
use ship_status_dash.Base.{◌≡◌, refl, ap, ◌∙◌, List, [], ◌∷◌, ok, err}
use ship_status_dash.Types.Config.{SubComponent, Component}
use ship_status_dash.Dashboard.Services.{Services}
use ship_status_dash.Dashboard.Absent.{
  check_monitoring, check_sub_components, check_components, check_for_absent_reports,
}

module _ {S : Type 0} (v : Services S) where
  -- The world after one sub-component was checked, with or without an error.
  abbrev pub after_sub_component : Component → S → SubComponent → S
  after_sub_component component s sub = (check_monitoring v component sub sub.monitoring s).1

  abbrev pub after_component : S → Component → S
  after_component s component = foldl (after_sub_component component) s component.subcomponents

  check_sub_components_lem :
      (component : Component) (subs : List SubComponent) (s : S)
      → check_sub_components v component subs s
        ≡ (ok tt, foldl (after_sub_component component) s subs)
  unfolding check_sub_components
  check_sub_components_lem component [] s = refl
  check_sub_components_lem component (sub ∷ subs) s =
      check_sub_components_lem component subs (after_sub_component component s sub)

  check_components_lem :
      (cs : List Component) (s : S) → check_components v cs s ≡ (ok tt, foldl after_component s cs)
  unfolding check_components
  check_components_lem [] s = refl
  check_components_lem (c ∷ cs) s =
      ap (λ p. elim p.0 [ ok _ ↦ check_components v cs p.1 | err e ↦ (err e, p.1) ])
        (check_sub_components_lem c c.subcomponents s)
      ∙ check_components_lem cs (after_component s c)

  -- In any world, the check for absent reports returns without an error, and has then checked every
  -- sub-component of the configuration in turn: an error on one does not keep it from the next.
  pub check-every :
      (s : S)
      → check_for_absent_reports v s ≡ (ok tt, foldl after_component s (v.config s).components)
  unfolding check_for_absent_reports
  check-every s = check_components_lem (v.config s).components s
