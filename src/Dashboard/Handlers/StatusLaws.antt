-- ===== src/Dashboard/Handlers/StatusLaws.antt =====
-- What the status that users see says of the active outages.
use ship_status_dash.Base.{
  ◌≤◌, ◌<◌, ◌≡◌, refl, sym, ◌∙◌, ◌≢◌, ◌↔◌, ◌⊎◌, inl, inr, Bool, true, false, List, [], ◌∷◌, arith,
  eq_iff, All, Any, select, length, if◌then◌else◌, ltb, ◌==◌, string_eq,
}
use ship_status_dash.Types.Severity.{
  Severity, Status, status_healthy, status_partial, status_suspected, status_down, status_degraded,
  status_capacity_exhausted, severity_down, severity_degraded, severity_capacity_exhausted,
  severity_suspected, to_status, get_severity_level,
}
use ship_status_dash.Types.Outage.{Outage}
use ship_status_dash.Types.Config.{Component}
use ship_status_dash.Dashboard.Handlers.Status.{
  worse, most_critical, is_confirmed, has_unconfirmed, status_from_confirmed,
  determine_status_from_severity, sub_components_with_outages, component_status,
}

-- A severity that one of the outages has and that none of them exceeds.
pub record IsWorst (severity : Severity) (os : List Outage) : Type 0 where
  pub present : Any (λ o. o.severity ≡ severity) os
  pub greatest : All (λ o. get_severity_level o.severity ≤ get_severity_level severity) os

worse-above :
    (s t : Severity)
    → (get_severity_level s ≤ get_severity_level (worse s t))
      × (get_severity_level t ≤ get_severity_level (worse s t))
unfolding worse
worse-above s t = (ground arith, ground arith)

worse-either : (s t : Severity) → (worse s t ≡ s) ⊎ (worse s t ≡ t)
unfolding worse
worse-either s t = ground arith

most_critical-above :
    (worst : Severity) (os : List Outage)
    → (get_severity_level worst ≤ get_severity_level (most_critical worst os))
      × All (λ o. get_severity_level o.severity ≤ get_severity_level (most_critical worst os)) os
unfolding most_critical
most_critical-above worst [] = (omega arith, tt)
most_critical-above worst (o ∷ os) =
    let (a, b) = most_critical-above (worse worst o.severity) os in
    let (c, d) = worse-above worst o.severity in (omega arith, (omega arith, b))

most_critical-present :
    (worst : Severity) (os : List Outage)
    → (most_critical worst os ≡ worst) ⊎ Any (λ o. o.severity ≡ most_critical worst os) os
unfolding most_critical
most_critical-present worst [] = inl refl
most_critical-present worst (o ∷ os) = elim (most_critical-present (worse worst o.severity) os) [
  | inl e ↦ elim (worse-either worst o.severity) [
    | inl f ↦ inl (e ∙ f)
    | inr f ↦ inr (inl (sym (e ∙ f)))
  ]
  | inr m ↦ inr (inr m)
]

most_critical-IsWorst :
    (o : Outage) (os : List Outage) → IsWorst (most_critical o.severity (o ∷ os)) (o ∷ os)
most_critical-IsWorst o os = record {
  present = elim (most_critical-present o.severity (o ∷ os)) [ inl e ↦ inl (sym e) | inr m ↦ m ];
  greatest = (most_critical-above o.severity (o ∷ os)).1;
}

confirmed_status :
    (confirmed : List Outage) (unconfirmed : Bool)
    → confirmed ≢ []
    → (severity : Severity) × IsWorst severity confirmed
      × (status_from_confirmed confirmed unconfirmed ≡ to_status severity)
confirmed_status [] unconfirmed h = absurd (h refl)
confirmed_status (o ∷ os) unconfirmed h =
    (most_critical o.severity (o ∷ os), most_critical-IsWorst o os, refl)

-- With a confirmed outage, the status is the one of a severity that some confirmed outage has and
-- that no confirmed outage exceeds: unconfirmed outages have no say.
pub determine-confirmed :
    (os : List Outage)
    → select is_confirmed os ≢ []
    → (severity : Severity) × IsWorst severity (select is_confirmed os)
      × (determine_status_from_severity os ≡ to_status severity)
unfolding determine_status_from_severity
determine-confirmed [] h = absurd (h refl)
determine-confirmed (o ∷ os) h =
    confirmed_status (select is_confirmed (o ∷ os)) (has_unconfirmed (o ∷ os)) h

-- Without a confirmed outage, active outages show as Suspected.
pub determine-unconfirmed :
    (o : Outage) (os : List Outage)
    → select is_confirmed (o ∷ os) ≡ []
    → determine_status_from_severity (o ∷ os) ≡ status_suspected
unfolding determine_status_from_severity
determine-unconfirmed o os h = ground arith

-- A status other than the two that say that something works.
abbrev IsTrouble : Status → Type 0
IsTrouble x = ((x == status_healthy) ≡ false) × ((x == status_partial) ≡ false)

IsTrouble-if :
    (a b c d : Bool)
    → IsTrouble (
        if a
        then status_down
        else if b
        then status_degraded
        else if c
        then status_capacity_exhausted
        else if d
        then status_suspected
        else "Invalid")
IsTrouble-if true b c d = (refl, refl)
IsTrouble-if false true c d = (refl, refl)
IsTrouble-if false false true d = (refl, refl)
IsTrouble-if false false false true = (refl, refl)
IsTrouble-if false false false false = (refl, refl)

to_status-IsTrouble : (s : Severity) → IsTrouble (to_status s)
unfolding to_status
to_status-IsTrouble s =
    IsTrouble-if (s == severity_down) (s == severity_degraded) (s == severity_capacity_exhausted)
      (s == severity_suspected)

unconfirmed_of_none :
    (o : Outage) (os : List Outage)
    → select is_confirmed (o ∷ os) ≡ []
    → has_unconfirmed (o ∷ os) ≡ true
unconfirmed_of_none o os h = ground arith

IsTrouble-with :
    (confirmed : List Outage) (unconfirmed : Bool)
    → (confirmed ≡ [] → unconfirmed ≡ true)
    → IsTrouble (status_from_confirmed confirmed unconfirmed)
IsTrouble-with (o ∷ os) unconfirmed h = to_status-IsTrouble (most_critical o.severity (o ∷ os))
IsTrouble-with [] true h = (refl, refl)
IsTrouble-with [] false h = cc (h refl)

determine-IsTrouble :
    (o : Outage) (os : List Outage) → IsTrouble (determine_status_from_severity (o ∷ os))
unfolding determine_status_from_severity
determine-IsTrouble o os =
    IsTrouble-with (select is_confirmed (o ∷ os)) (has_unconfirmed (o ∷ os))
      (unconfirmed_of_none o os)

partial_if :
    (b : Bool) (x : Status)
    → IsTrouble x
    → ((if b then status_partial else x) ≢ status_healthy)
      × (((if b then status_partial else x) ≡ status_partial) ↔ (b ≡ true))
partial_if true x t =
    ((λ e. cc ((eq_iff status_partial status_healthy).1 e)), ((λ _. refl), (λ _. refl)))
partial_if false x t = (
  (λ e. cc ((eq_iff x status_healthy).1 e, t.0)),
  ((λ e. absurd (cc ((eq_iff x status_partial).1 e, t.1))), (λ e. absurd (cc e))),
)

pub component_status_iff :
    (component : Component) (os : List Outage)
    → ((component_status component os ≡ status_healthy) ↔ (os ≡ []))
      × ((component_status component os ≡ status_partial) ↔ (
          (os ≢ []) × (length (sub_components_with_outages os) < length component.subcomponents)))
unfolding component_status
component_status_iff component [] = (
  ((λ _. refl), (λ _. refl)),
  ((λ h. cc ((eq_iff status_healthy status_partial).1 h)), (λ h. absurd (h.0 refl))),
)
component_status_iff component (o ∷ os) =
    let (h, p) =
      partial_if
        (ltb (length (sub_components_with_outages (o ∷ os))) (length component.subcomponents))
        (determine_status_from_severity (o ∷ os)) (determine-IsTrouble o os) in
    (
      ((λ e. absurd (h e)), (λ e. cc e)),
      ((λ e. ((λ f. cc f), ground (arith, p.0 e))), (λ e. p.1 (ground (arith, e.1)))),
    )
