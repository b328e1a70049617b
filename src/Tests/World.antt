-- ===== src/Tests/World.antt =====
-- A world in memory that behaves as the program relies on: a list of rows for the outages, one for
-- the audit log, one for the reasons, a clock that stands still, and a Slack workspace that takes every message.
use ship_status_dash.Base.{
  ℕ, ◌+◌, Bool, List, [], ◌∷◌, ◌++◌, map, Exec, Result, ok, err, select, ◌==◌, nat_eq,
  if◌then◌else◌,
}
use ship_status_dash.Types.Outage.{Outage, Reason, bare, owned, OutageAuditLog}
use ship_status_dash.Types.Config.{DashboardConfig}
use ship_status_dash.Env.{
  Error, record_not_found, failed, Table, Context, Hooks, Gorm, SlackClient, Env,
}
use ship_status_dash.Env.Lawful.{Tables, put_row, remove_row}

-- The rows without associations, as a table holds them.
abbrev pub view : Tables → Tables
view t = record { outages = map bare t.outages; audit_logs = t.audit_logs; reasons = t.reasons }

abbrev pub next_id : List Outage → ℕ
next_id [] = 1
next_id (r ∷ rs) = r.id + next_id rs

abbrev pub first_of : (Outage → Bool) → List Outage → Result Error Outage
first_of p [] = err record_not_found
first_of p (r ∷ rs) =
    let rest = first_of p rs in
    if p r then if r.id == 0 then err (failed "a row without an id") else ok r else rest

-- What a write comes to, by the result of its hook.
abbrev pub commit :
    {A : Type 0} → A → Tables → Result Error (Unit {0}) × Tables → Result Error A × Tables
commit a s (ok _, hooked) = (ok a, hooked)
commit a s (err e, hooked) = (err e, s)

abbrev pub then_commit :
    {A B : Type 0}
    → Tables
    → Result Error B × Tables
    → (B → Exec Tables Error A)
    → Result Error A × Tables
then_commit s (ok b, t) k = k b t
then_commit s (err e, t) k = (err e, s)

abbrev pub rows : Tables → List Outage
rows s = (view s).outages

abbrev pub with_rows : List Outage → Tables → Tables
with_rows l s = record s { outages = l }

abbrev pub numbered : Outage → Tables → Outage
numbered o s = record o { id = next_id (rows s) }

abbrev pub added : Outage → Tables → Tables
added o s = record s {
  outages = rows s ++ (bare (numbered o s) ∷ []);
  reasons = s.reasons ++ map (owned (numbered o s).id) o.reasons;
}

abbrev pub finish_save : Hooks Tables → Outage → Tables → Context → Exec Tables Error Outage
finish_save h o s ctx t = commit o s (h.after_update ctx o (with_rows (put_row o (rows t)) t))

abbrev pub finish_delete : Hooks Tables → Outage → Tables → Context → Exec Tables Error (Unit {0})
finish_delete h o s ctx t =
    commit tt s (h.after_delete ctx o (with_rows (remove_row o.id (rows t)) t))

abbrev pub in_transaction : Tables → Result Error Outage × Tables → Result Error Outage × Tables
in_transaction s (ok o, t) = (ok o, t)
in_transaction s (err e, t) = (err e, s)

abbrev pub idle_table : {Row : Type 0} → Table Tables Row
idle_table = record {
  find = λ q s. (ok [], s);
  first = λ q s. (err record_not_found, s);
  create = λ r s. (ok r, s);
  save = λ r s. (ok r, s);
}

abbrev pub audit_table : Table Tables OutageAuditLog
audit_table = record {
  find = λ q s. (ok (select q.filter s.audit_logs), s);
  first = λ q s. (err record_not_found, s);
  create = λ a s. (ok a, record s { audit_logs = s.audit_logs ++ (a ∷ []) });
  save = λ a s. (ok a, s);
}

abbrev pub reason_table : Table Tables Reason
reason_table = record {
  find = λ q s. (ok (select q.filter s.reasons), s);
  first = λ q s. (err record_not_found, s);
  create = λ r s. (ok r, record s { reasons = s.reasons ++ (r ∷ []) });
  save = λ r s. (ok r, s);
}

abbrev pub world_db : Gorm Tables
world_db = record {
  find = λ q s. (ok (select q.filter (rows s)), s);
  first = λ q s. (first_of q.filter (rows s), s);
  create = λ h c o s. commit (numbered o s) s (h.after_create c (numbered o s) (added o s));
  save = λ h c o s. then_commit s (h.before_update c o s) (finish_save h o s);
  delete = λ h c o s. then_commit s (h.before_delete c o s) (finish_delete h o s);
  transaction = λ m s. in_transaction s (m s);
  reasons = reason_table;
  slack_threads = idle_table;
  audit_logs = audit_table;
  pings = idle_table;
}

abbrev pub world_slack : SlackClient Tables
world_slack = record {
  post_message = λ channel text thread s. (ok (channel, "1.0"), s);
  add_reaction = λ name channel timestamp s. (ok tt, s);
}

abbrev pub now : ℕ
now = 5000000000

abbrev pub world : DashboardConfig → Env Tables
world cfg = record {
  db = world_db;
  slack_client = world_slack;
  now = λ s. (now, s);
  config = λ s. cfg;
  marshal = λ o. ok "{}";
  format_time = λ t. "now";
}
