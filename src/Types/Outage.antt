-- ===== src/Types/Outage.antt =====
-- Outages, what is stored beside them, and their validation (pkg/types/models.go). A time is the
-- number of nanoseconds since the zero time of Go's package time; locations are not modelled.
pub mod Validate
use ship_status_dash.Base.{ℕ, String, Bool, false, Option, List, []}
use ship_status_dash.Types.Severity.{Severity}

-- `sql.NullTime`.
pub record NullTime : Type 0 where
  pub time : ℕ
  pub valid : Bool

abbrev pub null_time : NullTime
null_time = record { time = 0; valid = false }

pub record Reason : Type 0 where
  pub outage_id : ℕ
  pub type : String
  pub check : String
  pub results : String

pub record SlackThread : Type 0 where
  pub outage_id : ℕ
  pub channel : String
  pub channel_id : String
  pub thread_timestamp : String
  pub thread_url : String

pub record OutageAuditLog : Type 0 where
  pub outage_id : ℕ
  pub user : String
  pub operation : String
  pub old : Option String
  pub new : Option String
  pub created_at : ℕ

pub record ComponentReportPing : Type 0 where
  pub id : ℕ
  pub component_name : String
  pub sub_component_name : String
  pub time : ℕ

pub record Outage : Type 0 where
  pub id : ℕ
  pub component_name : String
  pub sub_component_name : String
  pub severity : Severity
  pub start_time : ℕ
  pub end_time : NullTime
  pub description : String
  pub discovered_from : String
  pub created_by : String
  pub confirmed_at : NullTime
  pub triage_notes : Option String
  pub reasons : List Reason
  pub slack_threads : List SlackThread

-- The columns of an outage, without the associations that a query may load.
abbrev pub bare : Outage → Outage
bare o = record o { reasons = []; slack_threads = [] }

-- A reason as a row of the outage with this id.
abbrev pub owned : ℕ → Reason → Reason
owned id r = record r { outage_id = id }
