-- ===== src/Types/Outage/Validate.antt =====
-- `Outage.Validate` (pkg/types/models.go).
use ship_status_dash.Base.{
  String, ◌≡◌, refl, ◌≢◌, Bool, true, false, List, [], ◌∷◌, ◌++◌, ap, ◌↔◌, arith, eq_iff, ◌==◌,
  nat_eq, string_eq, if◌then◌else◌, join, trim_space,
}
use ship_status_dash.Types.Severity.{Severity, is_valid_severity}
use ship_status_dash.Types.Outage.{Outage}

-- One message if a condition fails, as each `append` to `validationErrors` adds one.
abbrev message_if : Bool → String → List String
message_if true m = m ∷ []
message_if false m = []

unfoldable pub validation_errors : Outage → List String
validation_errors o =
    (if o.severity == ""
      then "Severity is required" ∷ []
      else if is_valid_severity o.severity
      then []
      else "Invalid severity. Must be one of: Down, Degraded, Suspected" ∷ [])
    ++ (message_if (o.start_time == 0) "StartTime is required"
        ++ (message_if (trim_space o.description == "") "Description is required"
            ++ (message_if (o.discovered_from == "") "DiscoveredFrom is required"
                ++ message_if (o.created_by == "") "CreatedBy is required")))

-- The message and whether the outage is valid.
unfoldable pub validate : Outage → String × Bool
unfolding validation_errors
validate o = elim (validation_errors o) [ [] ↦ ("", true) | m ∷ ms ↦ (join "; " (m ∷ ms), false) ]

-- What `Validate` asks of an outage.
pub record IsAcceptable (o : Outage) : Type 0 where
  pub severity : is_valid_severity o.severity ≡ true
  pub start_time : o.start_time ≢ 0
  pub description : trim_space o.description ≢ ""
  pub discovered_from : o.discovered_from ≢ ""
  pub created_by : o.created_by ≢ ""

pub IsAcceptable-of_validate : (o : Outage) → (validate o).1 ≡ true → IsAcceptable o
unfolding validate
IsAcceptable-of_validate o h = ground (
  arith,
  eq_iff o.severity "",
  eq_iff (trim_space o.description) "",
  eq_iff o.discovered_from "",
  eq_iff o.created_by "",
)

not_empty_of_valid : (s : Severity) → is_valid_severity s ≡ true → s ≢ ""
not_empty_of_valid s h e = cc (empty_not_valid s e)
  where
    empty_not_valid : (s : Severity) → s ≡ "" → is_valid_severity s ≡ false
    empty_not_valid s e = rw e (unfold is_valid_severity in refl)

validate_of_IsAcceptable : (o : Outage) → IsAcceptable o → validate o ≡ ("", true)
unfolding validate
validate_of_IsAcceptable o h = ground (
  arith,
  not_empty_of_valid o.severity,
  eq_iff o.severity "",
  eq_iff (trim_space o.description) "",
  eq_iff o.discovered_from "",
  eq_iff o.created_by "",
)

-- An outage passes validation, with an empty message, exactly when its severity is one of the four
-- levels and its start time, trimmed description, source and creator are all set.
pub validate_iff : (o : Outage) → (validate o ≡ ("", true)) ↔ IsAcceptable o
validate_iff o = (
  λ e. IsAcceptable-of_validate o (ap (λ (r : String × Bool). r.1) e),
  validate_of_IsAcceptable o,
)
