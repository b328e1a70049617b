-- ===== src/Env/Lawful.antt =====
-- What the program relies on of the world, as far as the outages and the audit log are concerned:
-- queries return the rows that match, a write with its hooks happens whole or not at all, and what
-- is not a write of outages leaves them alone.
use ship_status_dash.Base.{
  ℕ, String, ◌≡◌, Bool, true, ◌&&◌, Option, List, [], ◌∷◌, ◌++◌, map, ◌≢◌, ok, err, Exec, count,
  Any, ◌==◌, nat_eq, if◌then◌else◌,
}
use ship_status_dash.Types.Outage.{
  Outage, bare, owned, Reason, OutageAuditLog, SlackThread, ComponentReportPing,
}
use ship_status_dash.Env.{Error, record_not_found, Query, Context, Hooks, Env}

-- The live rows of the tables, each in the order in which its rows were created.
pub record Tables : Type 0 where
  pub outages : List Outage
  pub audit_logs : List OutageAuditLog
  pub reasons : List Reason

-- The rows after the columns of `o` were written to the row with its id.
abbrev pub put_row : Outage → List Outage → List Outage
put_row o [] = bare o ∷ []
put_row o (r ∷ rs) = if r.id == o.id then bare o ∷ rs else r ∷ put_row o rs

abbrev pub remove_row : ℕ → List Outage → List Outage
remove_row i [] = []
remove_row i (r ∷ rs) = if r.id == i then rs else r ∷ remove_row i rs

-- An action that may do much, but not to the tables.
abbrev pub Keeps : {S : Type 0} (view : S → Tables) {A : Type 0} → Exec S Error A → Type 0
Keeps {S} view m = (s : S) → view (m s).1 ≡ view s

module _ {S : Type 0} (view : S → Tables) where
  -- A successful create: one new row with an id that no row had, and then the hook.
  pub record Created (hooks : Hooks S) (ctx : Context) (o o' : Outage) (s s' : S) : Type 0 where
    pub written : S
    pub hooked : S
    pub only_id : o' ≡ record o { id = o'.id }
    pub fresh : count (λ r. r.id == o'.id) (view s).outages ≡ 0
    pub outages : (view written).outages ≡ (view s).outages ++ (bare o' ∷ [])
    pub audit_logs : (view written).audit_logs ≡ (view s).audit_logs
    pub reasons : (view written).reasons ≡ (view s).reasons ++ map (owned o'.id) o.reasons
    pub hook : hooks.after_create ctx o' written ≡ (ok tt, hooked)
    pub committed : view s' ≡ view hooked

  -- A successful save of an outage: the hook, the write, and the other hook.
  pub record Saved (hooks : Hooks S) (ctx : Context) (o o' : Outage) (s s' : S) : Type 0 where
    pub ctx' : Context
    pub prepared : S
    pub written : S
    pub hooked : S
    pub same : o' ≡ o
    pub before : hooks.before_update ctx o s ≡ (ok ctx', prepared)
    pub outages : (view written).outages ≡ put_row o (view prepared).outages
    pub audit_logs : (view written).audit_logs ≡ (view prepared).audit_logs
    pub after : hooks.after_update ctx' o written ≡ (ok tt, hooked)
    pub committed : view s' ≡ view hooked

  pub record Deleted (hooks : Hooks S) (ctx : Context) (o : Outage) (s s' : S) : Type 0 where
    pub ctx' : Context
    pub prepared : S
    pub written : S
    pub hooked : S
    pub before : hooks.before_delete ctx o s ≡ (ok ctx', prepared)
    pub outages : (view written).outages ≡ remove_row o.id (view prepared).outages
    pub audit_logs : (view written).audit_logs ≡ (view prepared).audit_logs
    pub after : hooks.after_delete ctx' o written ≡ (ok tt, hooked)
    pub committed : view s' ≡ view hooked

-- The documented behaviour of the world.
pub record IsLawful {S : Type 0} (env : Env S) (view : S → Tables) : Type 0 where
  pub now_keeps : (s : S) → view (env.now s).1 ≡ view s
  pub find_keeps : (q : Query Outage) → Keeps view (env.db.find q)
  pub find_rows :
      (q : Query Outage) (s : S) (l : List Outage)
      → (env.db.find q s).0 ≡ ok l
      → (p : Outage → Bool)
      → count (λ o. p (bare o)) l ≡ count (λ o. q.filter o && p o) (view s).outages
  pub first_keeps : (q : Query Outage) → Keeps view (env.db.first q)
  pub first_row :
      (q : Query Outage) (s : S) (o : Outage)
      → (env.db.first q s).0 ≡ ok o
      → (q.filter (bare o) ≡ true) × Any (λ r. r ≡ bare o) (view s).outages × (o.id ≢ 0)
  pub first_missing :
      (q : Query Outage) (s : S)
      → (env.db.first q s).0 ≡ err record_not_found
      → count q.filter (view s).outages ≡ 0
  pub create_ok :
      (h : Hooks S) (c : Context) (o o' : Outage) (s : S)
      → (env.db.create h c o s).0 ≡ ok o'
      → Created view h c o o' s (env.db.create h c o s).1
  pub create_err :
      (h : Hooks S) (c : Context) (o : Outage) (e : Error) (s : S)
      → (env.db.create h c o s).0 ≡ err e
      → view (env.db.create h c o s).1 ≡ view s
  -- An outage without an id is created by a save.
  pub save_ok :
      (h : Hooks S) (c : Context) (o o' : Outage) (s : S)
      → o.id ≢ 0
      → (env.db.save h c o s).0 ≡ ok o'
      → Saved view h c o o' s (env.db.save h c o s).1
  pub save_err :
      (h : Hooks S) (c : Context) (o : Outage) (e : Error) (s : S)
      → (env.db.save h c o s).0 ≡ err e
      → view (env.db.save h c o s).1 ≡ view s
  pub delete_ok :
      (h : Hooks S) (c : Context) (o : Outage) (s : S)
      → (env.db.delete h c o s).0 ≡ ok tt
      → Deleted view h c o s (env.db.delete h c o s).1
  pub delete_err :
      (h : Hooks S) (c : Context) (o : Outage) (e : Error) (s : S)
      → (env.db.delete h c o s).0 ≡ err e
      → view (env.db.delete h c o s).1 ≡ view s
  -- A transaction runs its body and commits, or leaves everything as it was.
  pub transaction_ok :
      (m : Exec S Error Outage) (o : Outage) (s : S)
      → (env.db.transaction m s).0 ≡ ok o
      → ((m s).0 ≡ ok o) × (view (env.db.transaction m s).1 ≡ view (m s).1)
  pub transaction_err :
      (m : Exec S Error Outage) (e : Error) (s : S)
      → (env.db.transaction m s).0 ≡ err e
      → view (env.db.transaction m s).1 ≡ view s
  pub audit_others :
      (a : OutageAuditLog) (s : S)
      → ((view (env.db.audit_logs.create a s).1).outages ≡ (view s).outages)
        × ((view (env.db.audit_logs.create a s).1).reasons ≡ (view s).reasons)
  pub audit_ok :
      (a a' : OutageAuditLog) (s : S)
      → (env.db.audit_logs.create a s).0 ≡ ok a'
      → (a' ≡ record a { created_at = a'.created_at })
        × ((view (env.db.audit_logs.create a s).1).audit_logs ≡ (view s).audit_logs ++ (a' ∷ []))
  pub audit_find_keeps : (q : Query OutageAuditLog) → Keeps view (env.db.audit_logs.find q)
  pub reason_ok :
      (r r' : Reason) (s : S)
      → (env.db.reasons.create r s).0 ≡ ok r'
      → view (env.db.reasons.create r s).1
        ≡ record (view s) { reasons = (view s).reasons ++ (r ∷ []) }
  pub thread_keeps : (t : SlackThread) → Keeps view (env.db.slack_threads.create t)
  pub threads_keeps : (q : Query SlackThread) → Keeps view (env.db.slack_threads.find q)
  pub post_keeps :
      (c m : String) (t : Option String) → Keeps view (env.slack_client.post_message c m t)
  pub react_keeps : (n c t : String) → Keeps view (env.slack_client.add_reaction n c t)
  pub ping_first_keeps : (q : Query ComponentReportPing) → Keeps view (env.db.pings.first q)
  pub ping_create_keeps : (p : ComponentReportPing) → Keeps view (env.db.pings.create p)
  pub ping_save_keeps : (p : ComponentReportPing) → Keeps view (env.db.pings.save p)
