-- ===== src/Types/Severity.antt =====
-- Severities and statuses (pkg/types/models.go and pkg/types/status.go). Both are string types in
-- the source, so a value that came from a request or a file may be any text.
pub mod Laws
use ship_status_dash.Base.{ℕ, String, Bool, true, false, ◌==◌, string_eq, if◌then◌else◌}

abbrev pub Severity : Type 0
Severity = String

abbrev pub severity_down : Severity
severity_down = "Down"

abbrev pub severity_degraded : Severity
severity_degraded = "Degraded"

abbrev pub severity_suspected : Severity
severity_suspected = "Suspected"

abbrev pub severity_capacity_exhausted : Severity
severity_capacity_exhausted = "CapacityExhausted"

abbrev pub Status : Type 0
Status = String

abbrev pub status_healthy : Status
status_healthy = "Healthy"

abbrev pub status_degraded : Status
status_degraded = "Degraded"

abbrev pub status_down : Status
status_down = "Down"

abbrev pub status_capacity_exhausted : Status
status_capacity_exhausted = "CapacityExhausted"

abbrev pub status_suspected : Status
status_suspected = "Suspected"

abbrev pub status_partial : Status
status_partial = "Partial"

unfoldable pub to_status : Severity → Status
to_status s =
    if s == severity_down
    then status_down
    else if s == severity_degraded
    then status_degraded
    else if s == severity_capacity_exhausted
    then status_capacity_exhausted
    else if s == severity_suspected
    then status_suspected
    else "Invalid"

unfoldable pub is_valid_severity : String → Bool
is_valid_severity s =
    if s == severity_down
    then true
    else if s == severity_degraded
    then true
    else if s == severity_suspected
    then true
    else if s == severity_capacity_exhausted
    then true
    else false

unfoldable pub get_severity_level : Severity → ℕ
get_severity_level s =
    if s == severity_down
    then 4
    else if s == severity_degraded
    then 3
    else if s == severity_capacity_exhausted
    then 2
    else if s == severity_suspected
    then 1
    else 0

unfoldable pub to_severity : Status → Severity
to_severity s =
    if s == status_down
    then severity_down
    else if s == status_degraded
    then severity_degraded
    else if s == status_capacity_exhausted
    then severity_capacity_exhausted
    else if s == status_suspected
    then severity_suspected
    else ""
