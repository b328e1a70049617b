-- ===== src/Repositories/Audit.antt =====
-- The hooks leave the outages alone, and one that succeeds has added one entry to the audit log.
use ship_status_dash.Base.{
  ℕ, String, ◌≡◌, refl, ap, some, Option, [], ◌∷◌, ◌++◌, Result, ok, arith, ◌>>=◌, bind-eq-ok, pure,
}
use ship_status_dash.Types.Outage.{Outage, OutageAuditLog}
use ship_status_dash.Env.{Error, Context, Env}
use ship_status_dash.Env.Lawful.{Tables, Keeps, IsLawful}
use ship_status_dash.Repositories.Hooks.{
  OperationType, create, delete, operation_name, before, after, old_json, new_json, write_audit,
}

module _ {S : Type 0} (env : Env S) (view : S → Tables) (law : IsLawful env view) where
  -- One entry more, for an operation of a user on an outage, and the outages and reasons as before.
  pub record Audited (operation : OperationType) (user : String) (id : ℕ) (s s' : S) : Type 0 where
    pub entry : OutageAuditLog
    pub outages : (view s').outages ≡ (view s).outages
    pub reasons : (view s').reasons ≡ (view s).reasons
    pub audit_logs : (view s').audit_logs ≡ (view s).audit_logs ++ (entry ∷ [])
    pub outage_id : entry.outage_id ≡ id
    pub user_name : entry.user ≡ user
    pub operation_text : entry.operation ≡ operation_name operation

  pub before-Keeps : (ctx : Context) (o : Outage) → Keeps view (before env ctx o)
  unfolding before
  before-Keeps ctx o s = grind (arith, law.first_keeps)

  pub user-before :
      (ctx ctx' : Context) (o : Outage) (s s' : S)
      → before env ctx o s ≡ (ok ctx', s')
      → ctx'.current_user ≡ ctx.current_user
  unfolding before
  user-before ctx ctx' o s s' h = ground arith

  old_json-Keeps :
      (operation : OperationType) (ctx : Context) → Keeps view (old_json env operation ctx)
  old_json-Keeps create ctx s = refl
  old_json-Keeps _ ctx s = ground arith

  new_json-Keeps : (operation : OperationType) (o : Outage) → Keeps view (new_json env operation o)
  new_json-Keeps delete o s = refl
  new_json-Keeps _ o s = grind (arith, law.first_keeps)

  write_audit-Audited :
      (operation : OperationType) (ctx : Context) (o : Outage) (user : String)
      (old new : Option String) (s s' : S)
      → ctx.current_user ≡ some user
      → write_audit env operation ctx o old new s ≡ (ok tt, s')
      → Audited operation user o.id s s'
  write_audit-Audited operation ctx o user old new s s' u h =
      let entry : OutageAuditLog = record {
        outage_id = o.id;
        user = user;
        operation = operation_name operation;
        old = old;
        new = new;
        created_at = 0;
      } in
      let (row, t, e, h') =
        bind-eq-ok {A = OutageAuditLog} (env.db.audit_logs.create entry) (λ _. pure tt) s
          (rw u at h) in
      let (filled, added) =
        law.audit_ok entry row s (ap (λ (p : Result Error OutageAuditLog × S). p.0) e) in
      record {
        entry = row;
        outages = ground (arith, law.audit_others entry s);
        reasons = ground (arith, law.audit_others entry s);
        audit_logs = ground arith;
        outage_id = ground arith;
        user_name = ground arith;
        operation_text = ground arith;
      }

  -- What a hook that succeeds has done.
  pub after-Audited :
      (operation : OperationType) (ctx : Context) (o : Outage) (user : String) (s s' : S)
      → ctx.current_user ≡ some user
      → after env operation ctx o s ≡ (ok tt, s')
      → Audited operation user o.id s s'
  unfolding after
  after-Audited operation ctx o user s s' u h =
      let (old, s1, e1, h1) =
        bind-eq-ok (old_json env operation ctx)
          (λ old. do new ← new_json env operation o; write_audit env operation ctx o old new) s h in
      let (new, s2, e2, h2) =
        bind-eq-ok (new_json env operation o) (λ new. write_audit env operation ctx o old new) s1
          h1 in
      let audited = write_audit-Audited operation ctx o user old new s2 s' u h2 in
      let v1 : view s1 ≡ view s = ground (arith, old_json-Keeps operation ctx s) in
      let v2 : view s2 ≡ view s1 = ground (arith, new_json-Keeps operation o s1) in
      record {
        entry = audited.entry;
        outages = cc (audited.outages, v1, v2);
        reasons = cc (audited.reasons, v1, v2);
        audit_logs = cc (audited.audit_logs, v1, v2);
        outage_id = audited.outage_id;
        user_name = audited.user_name;
        operation_text = audited.operation_text;
      }
