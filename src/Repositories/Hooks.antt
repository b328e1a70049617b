-- ===== src/Repositories/Hooks.antt =====
-- The hooks of `Outage` (pkg/types/models.go): before an update or a delete the old row is put into
-- the context, and after a write an entry of the audit log is created in the same transaction.
-- `normalizeOutageTimesUTC` changes the location of a time only, and times here have none.
use ship_status_dash.Base.{
  ℕ, String, Option, none, some, [], ◌∷◌, Exec, Result, pure, require, ◌>>=◌, ◌>>◌, ◌==◌, nat_eq,
}
use ship_status_dash.Types.Outage.{Outage}
use ship_status_dash.Env.{Error, failed, Query, Context, Hooks, Env}

pub data OperationType : Type 0 where
  create update delete : OperationType

abbrev pub operation_name : OperationType → String
operation_name create = "CREATE"
operation_name update = "UPDATE"
operation_name delete = "DELETE"

-- The row with an id, with its reasons and threads: `First(&old, o.ID)`.
abbrev pub by_id : ℕ → Query Outage
by_id id = record {
  filter = λ r. r.id == id;
  order = none;
  preload = "Reasons" ∷ "SlackThreads" ∷ [];
}

module _ {S : Type 0} (env : Env S) where
  abbrev pub lift : {A : Type 0} → Result Error A → Exec S Error A
  lift r s = (r, s)

  abbrev pub capture_old : Option Outage → Context → Outage → Exec S Error Context
  capture_old (some existing) ctx o = pure ctx
  capture_old none ctx o = do
    old ← env.db.first (by_id o.id)
    pure (record ctx { old_outage = some old })

  unfoldable pub before : Context → Outage → Exec S Error Context
  before ctx o = capture_old ctx.old_outage ctx o

  abbrev pub old_json : OperationType → Context → Exec S Error (Option String)
  old_json create ctx = pure none
  old_json _ ctx = do
    old ← require ctx.old_outage (failed "value of old_outage is not an Outage type")
    text ← lift (env.marshal old)
    pure (some text)

  abbrev pub new_json : OperationType → Outage → Exec S Error (Option String)
  new_json delete o = pure none
  new_json _ o = do
    fresh ← env.db.first (by_id o.id)
    text ← lift (env.marshal fresh)
    pure (some text)

  -- The last part of `after`: who did it, and the entry.
  abbrev pub write_audit :
      OperationType → Context → Outage → Option String → Option String → Exec S Error (Unit {0})
  write_audit operation ctx o old new = do
    user ← require ctx.current_user (failed "current user not found in context")
    env.db.audit_logs.create (record {
      outage_id = o.id;
      user = user;
      operation = operation_name operation;
      old = old;
      new = new;
      created_at = 0;
    })
    pure tt

  unfoldable pub after : OperationType → Context → Outage → Exec S Error (Unit {0})
  after operation ctx o = do
    old ← old_json operation ctx
    new ← new_json operation o
    write_audit operation ctx o old new

  -- The methods that gorm finds on the model.
  unfoldable pub outage_hooks : Hooks S
  outage_hooks = record {
    before_update = before;
    before_delete = before;
    after_create = after create;
    after_update = after update;
    after_delete = after delete;
  }
