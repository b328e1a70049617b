-- ===== src/Types/Severity/Laws.antt =====
-- How the conversions between severities and statuses, and the levels, fit together.
use ship_status_dash.Base.{◌<◌, ◌≡◌, ◌⊎◌, inl, inr, true, arith, eq_iff}
use ship_status_dash.Types.Severity.{
  Severity, severity_down, severity_degraded, severity_suspected, severity_capacity_exhausted,
  to_status, is_valid_severity, get_severity_level, to_severity,
}

-- The four severities, one at a time.
abbrev pub IsKnown : Severity → Type 0
IsKnown s =
    (s ≡ severity_down)
    ⊎ (s ≡ severity_degraded)
    ⊎ (s ≡ severity_capacity_exhausted)
    ⊎ (s ≡ severity_suspected)

pub IsKnown-of_valid : (s : Severity) → is_valid_severity s ≡ true → IsKnown s
unfolding is_valid_severity
IsKnown-of_valid s h = ground (
  arith,
  eq_iff s severity_down,
  eq_iff s severity_degraded,
  eq_iff s severity_suspected,
  eq_iff s severity_capacity_exhausted,
)

-- A severity is valid exactly when its level is positive.
pub level_pos_of_valid : (s : Severity) → is_valid_severity s ≡ true → 0 < get_severity_level s
unfolding is_valid_severity get_severity_level
level_pos_of_valid s h = ground arith

pub valid_of_level_pos : (s : Severity) → 0 < get_severity_level s → is_valid_severity s ≡ true
unfolding is_valid_severity get_severity_level
valid_of_level_pos s h = ground arith

-- Different valid severities have different levels, so the most critical of some is unique.
pub level_injective :
    (s t : Severity)
    → is_valid_severity s ≡ true
    → get_severity_level s ≡ get_severity_level t
    → s ≡ t
unfolding is_valid_severity get_severity_level
level_injective s t h e = ground (
  arith,
  eq_iff s severity_down,
  eq_iff s severity_degraded,
  eq_iff s severity_suspected,
  eq_iff s severity_capacity_exhausted,
  eq_iff t severity_down,
  eq_iff t severity_degraded,
  eq_iff t severity_suspected,
  eq_iff t severity_capacity_exhausted,
)

abbrev KeepsMeaning : Severity → Type 0
KeepsMeaning s = to_severity (to_status s) ≡ s

KeepsMeaning-of_known : (s : Severity) → IsKnown s → KeepsMeaning s
unfolding to_severity to_status
KeepsMeaning-of_known s (inl e) = rw e
KeepsMeaning-of_known s (inr (inl e)) = rw e
KeepsMeaning-of_known s (inr (inr (inl e))) = rw e
KeepsMeaning-of_known s (inr (inr (inr e))) = rw e

-- The status of a valid severity gives the severity back.
pub to_severity-to_status :
    (s : Severity) → is_valid_severity s ≡ true → to_severity (to_status s) ≡ s
to_severity-to_status s h = KeepsMeaning-of_known s (IsKnown-of_valid s h)
