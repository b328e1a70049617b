-- ===== src/Env.antt =====
-- What the program calls and does not implement: the database layer (gorm over PostgreSQL), the
-- Slack client, the clock, the JSON encoder and the configuration that may be reloaded at any time.
-- `S` is the state of the world.
pub mod Lawful
use ship_status_dash.Base.{ℕ, String, Bool, Option, List, Exec, Result}
use ship_status_dash.Types.Outage.{Outage, Reason, SlackThread, OutageAuditLog, ComponentReportPing}
use ship_status_dash.Types.Config.{DashboardConfig}

pub data Error : Type 0 where
  record_not_found duplicated_key : Error
  failed : String → Error

-- A chain of `Where`, `Order` and `Preload`. `order` is a key by which the rows come descending.
pub record Query (Row : Type 0) : Type 0 where
  pub filter : Row → Bool
  pub order : Option (Row → ℕ)
  pub preload : List String

pub record Table (S Row : Type 0) : Type 0 where
  pub find : Query Row → Exec S Error (List Row)
  pub first : Query Row → Exec S Error Row
  pub create : Row → Exec S Error Row
  pub save : Row → Exec S Error Row

-- The values in the context of a statement (`OldOutageKey` and `CurrentUserKey`).
pub record Context : Type 0 where
  pub old_outage : Option Outage
  pub current_user : Option String

-- The methods of a model that gorm calls around a write.
pub record Hooks (S : Type 0) : Type 0 where
  pub before_update : Context → Outage → Exec S Error Context
  pub before_delete : Context → Outage → Exec S Error Context
  pub after_create : Context → Outage → Exec S Error (Unit {0})
  pub after_update : Context → Outage → Exec S Error (Unit {0})
  pub after_delete : Context → Outage → Exec S Error (Unit {0})

pub record Gorm (S : Type 0) : Type 0 where
  pub find : Query Outage → Exec S Error (List Outage)
  pub first : Query Outage → Exec S Error Outage
  pub create : Hooks S → Context → Outage → Exec S Error Outage
  pub save : Hooks S → Context → Outage → Exec S Error Outage
  pub delete : Hooks S → Context → Outage → Exec S Error (Unit {0})
  pub transaction : Exec S Error Outage → Exec S Error Outage
  pub reasons : Table S Reason
  pub slack_threads : Table S SlackThread
  pub audit_logs : Table S OutageAuditLog
  pub pings : Table S ComponentReportPing

-- `post_message channel text thread` returns the channel's id and the message's timestamp.
pub record SlackClient (S : Type 0) : Type 0 where
  pub post_message : String → String → Option String → Exec S Error (String × String)
  pub add_reaction : String → String → String → Exec S Error (Unit {0})

pub record Env (S : Type 0) : Type 0 where
  pub db : Gorm S
  pub slack_client : SlackClient S
  pub now : S → ℕ × S
  pub config : S → DashboardConfig
  pub marshal : Outage → Result Error String
  pub format_time : ℕ → String
