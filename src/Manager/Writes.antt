-- ===== src/Manager/Writes.antt =====
-- The writes of the repository, in the terms of the manager's interface: what each does to the outages
-- and the audit log over a lawful world.
use ship_status_dash.Base.{
  Any, Bool, ◌&&◌, ◌==◌, nat_eq, string_eq, nat_beq_iff, eq_iff, count, ℕ, String, ◌≡◌, ◌≢◌, refl,
  ap, sym, ◌∙◌, ◌++◌, map, subst, List, [], ◌∷◌, ok, err, pure, arith, bind-eq-ok, ◌>>◌,
}
use mathlib.Core.List.{append-nil, append_assoc}
use ship_status_dash.Types.Outage.{Outage, Reason, bare, owned}
use ship_status_dash.Env.{Error, Env}
use ship_status_dash.Env.Lawful.{Tables, Keeps, IsLawful}
use ship_status_dash.Repositories.Outages
use ship_status_dash.Repositories.Outages.{round_outage_times, is_active_at, user_context}
use ship_status_dash.Repositories.Hooks.{
  OperationType, operation_name, create, update, delete, outage_hooks,
}
use ship_status_dash.Repositories.Audit.{Audited, after-Audited, before-Keeps, user-before}
use ship_status_dash.Manager.{Logged, Appended, Replaced, Removed}
use ship_status_dash.Manager.Db.{create_reasons, create_rows}

module _ {S : Type 0} (env : Env S) (view : S → Tables) (law : IsLawful env view) where
  Logged-of_Audited :
      (operation : OperationType) (user : String) (id : ℕ) (s w w' s' : S)
      → (view w).audit_logs ≡ (view s).audit_logs
      → view s' ≡ view w'
      → Audited env view law operation user id w w'
      → Logged view (operation_name operation) user id s s'
  Logged-of_Audited operation user id s w w' s' d e a = record {
    entry = a.entry;
    audit_logs = cc (d, e, a.audit_logs);
    outage_id = a.outage_id;
    user_name = a.user_name;
    operation_text = a.operation_text;
  }

  -- These speak of the states through their tables only.
  Logged-of_eq :
      (operation user : String) (id : ℕ) (s s' t t' : S)
      → (view s').audit_logs ≡ (view s).audit_logs
      → (view t').audit_logs ≡ (view t).audit_logs
      → Logged view operation user id s t
      → Logged view operation user id s' t'
  Logged-of_eq operation user id s s' t t' d e a = record {
    entry = a.entry;
    audit_logs = cc (d, e, a.audit_logs);
    outage_id = a.outage_id;
    user_name = a.user_name;
    operation_text = a.operation_text;
  }

  repo_create_ok :
      (o o' : Outage) (user : String) (s : S)
      → (Outages.create_outage env o user s).0 ≡ ok o'
      → Appended view o o' [] user s (Outages.create_outage env o user s).1
  unfolding Outages.create_outage outage_hooks round_outage_times
  repo_create_ok o o' user s h =
      let c = law.create_ok (outage_hooks env) (user_context user) (round_outage_times o) o' s h in
      let a =
        after-Audited env view law create (user_context user) o' user c.written c.hooked refl
          c.hook in
      record {
        only_id = c.only_id;
        fresh = c.fresh;
        outages = cc (c.committed, a.outages, c.outages);
        all_reasons = cc (
          c.committed,
          a.reasons,
          c.reasons,
          append-nil ((view s).reasons ++ map (owned o'.id) o.reasons),
        );
        logged =
            Logged-of_Audited create user o'.id s c.written c.hooked _ c.audit_logs c.committed a;
      }

  pub repo_save_ok :
      (o o' : Outage) (user : String) (s : S)
      → o.id ≢ 0
      → (Outages.save_outage env o user s).0 ≡ ok o'
      → Replaced view o o' user s (Outages.save_outage env o user s).1
  unfolding Outages.save_outage outage_hooks round_outage_times
  repo_save_ok o o' user s n h =
      let o1 = round_outage_times o in
      let c = law.save_ok (outage_hooks env) (user_context user) o1 o' s n h in
      let b : view c.prepared ≡ view s =
        ground (arith, before-Keeps env view law (user_context user) o1 s, c.before) in
      let u = user-before env view law (user_context user) c.ctx' o1 s c.prepared c.before in
      let a = after-Audited env view law update c.ctx' o1 user c.written c.hooked u c.after in
      record {
        same = c.same;
        outages = cc (c.committed, a.outages, c.outages, b);
        logged =
            Logged-of_Audited update user o.id s c.written c.hooked _ (cc (c.audit_logs, b))
              c.committed a;
      }

  pub repo_delete_ok :
      (o : Outage) (user : String) (s : S)
      → (Outages.delete_outage env o user s).0 ≡ ok tt
      → Removed view o user s (Outages.delete_outage env o user s).1
  unfolding Outages.delete_outage outage_hooks
  repo_delete_ok o user s h =
      let c = law.delete_ok (outage_hooks env) (user_context user) o s h in
      let b : view c.prepared ≡ view s =
        ground (arith, before-Keeps env view law (user_context user) o s, c.before) in
      let u = user-before env view law (user_context user) c.ctx' o s c.prepared c.before in
      let a = after-Audited env view law delete c.ctx' o user c.written c.hooked u c.after in
      record {
        outages = cc (c.committed, a.outages, c.outages, b);
        logged =
            Logged-of_Audited delete user o.id s c.written c.hooked _ (cc (c.audit_logs, b))
              c.committed a;
      }

  pub Appended-of_eq :
      (o o' : Outage) (reasons : List Reason) (user : String) (s t t' : S)
      → view t' ≡ view t
      → Appended view o o' reasons user s t
      → Appended view o o' reasons user s t'
  Appended-of_eq o o' reasons user s t t' e a = record {
    only_id = a.only_id;
    fresh = a.fresh;
    outages = cc (e, a.outages);
    all_reasons = cc (e, a.all_reasons);
    logged = Logged-of_eq "CREATE" user o'.id s s t t' refl (ap (λ w. w.audit_logs) e) a.logged;
  }

  pub Replaced-of_eq :
      (o o' : Outage) (user : String) (s s' t t' : S)
      → view s' ≡ view s
      → view t' ≡ view t
      → Replaced view o o' user s t
      → Replaced view o o' user s' t'
  Replaced-of_eq o o' user s s' t t' d e a = record {
    same = a.same;
    outages = cc (d, e, a.outages);
    logged =
        Logged-of_eq "UPDATE" user o.id s s' t t' (ap (λ w. w.audit_logs) d)
          (ap (λ w. w.audit_logs) e) a.logged;
  }

  -- The loop adds each of the reasons, as one of the outage with the id, and does no more.
  create_reasons_ok :
      (id : ℕ) (reasons : List Reason) (s : S)
      → (create_reasons env id reasons s).0 ≡ ok tt
      → view (create_reasons env id reasons s).1
        ≡ record (view s) { reasons = (view s).reasons ++ map (owned id) reasons }
  unfolding create_reasons Outages.create_reason
  create_reasons_ok id [] s h =
      ap (λ l. record (view s) { reasons = l }) (sym (append-nil (view s).reasons))
  create_reasons_ok id (r ∷ rs) s h =
      let (row, t, e, h1) =
        bind-eq-ok (env.db.reasons.create (owned id r)) (λ _. create_reasons env id rs) s
          (ap (λ x. (x, (create_reasons env id (r ∷ rs) s).1)) h) in
      let one = law.reason_ok (owned id r) row s (ap (λ x. x.0) e) in
      let rest = create_reasons_ok id rs t (ap (λ x. x.0) h1) in
      ap (λ x. view x.1) (sym h1)
      ∙ rest
      ∙ ap (λ (w : Tables). record w { reasons = w.reasons ++ map (owned id) rs })
          (ap (λ x. view x.1) (sym e) ∙ one)
      ∙ ap (λ l. record (view s) { reasons = l })
          (append_assoc (view s).reasons (owned id r ∷ []) (map (owned id) rs))

  pub create_rows_ok :
      (o o' : Outage) (reasons : List Reason) (user : String) (s : S)
      → (create_rows env o reasons user s).0 ≡ ok o'
      → Appended view o o' reasons user s (create_rows env o reasons user s).1
  unfolding create_rows
  create_rows_ok o o' reasons user s h =
      let (row, t, e, h1) =
        bind-eq-ok (Outages.create_outage env o user)
          (λ row. do create_reasons env row.id reasons; pure row) s
          (ap (λ r. (r, (create_rows env o reasons user s).1)) h) in
      let (_, u, e2, h2) = bind-eq-ok (create_reasons env row.id reasons) (λ _. pure row) t h1 in
      let same : row ≡ o' = cc in
      let a = repo_create_ok o row user s (ap (λ r. r.0) e) in
      let added = create_reasons_ok row.id reasons t (ap (λ r. r.0) e2) in
      let final = (create_rows env o reasons user s).1 in
      let created = (Outages.create_outage env o user s).1 in
      let v : view final ≡ record (view created) {
        reasons = (view created).reasons ++ map (owned row.id) reasons;
      } =
        ap (λ x. view x.1) (sym h2)
        ∙ ap (λ x. view x.1) (sym e2)
        ∙ added
        ∙ ap (λ (w : Tables). record w { reasons = w.reasons ++ map (owned row.id) reasons })
            (ap (λ x. view x.1) (sym e)) in
      subst (λ x. Appended view o x reasons user s final) same
        (record {
          only_id = a.only_id;
          fresh = a.fresh;
          outages = ap (λ w. w.outages) v ∙ a.outages;
          all_reasons =
              ap (λ w. w.reasons) v
              ∙ ap (λ l. l ++ map (owned row.id) reasons) (a.all_reasons ∙ append-nil _);
          logged =
              Logged-of_eq "CREATE" user row.id s s created final refl (ap (λ w. w.audit_logs) v)
                a.logged;
        })

  pub get_outage_by_id-Keeps :
      (o : Outage)
      → Keeps view (Outages.get_outage_by_id env o.component_name o.sub_component_name o.id)
  unfolding Outages.get_outage_by_id
  get_outage_by_id-Keeps o s = law.first_keeps _ s

  pub get_outage_by_id_row :
      (c sub : String) (id : ℕ) (s : S) (o : Outage)
      → (Outages.get_outage_by_id env c sub id s).0 ≡ ok o
      → (o.id ≡ id)
        × (o.component_name ≡ c)
        × (o.sub_component_name ≡ sub)
        × Any (λ r. r ≡ bare o) (view s).outages
        × (o.id ≢ 0)
  unfolding Outages.get_outage_by_id
  get_outage_by_id_row c sub id s o h =
      let (matches, row, other) = law.first_row _ s o h in
      (
        ground (arith, matches, nat_beq_iff o.id id),
        ground (arith, matches, eq_iff o.component_name c),
        ground (arith, matches, eq_iff o.sub_component_name sub),
        row,
        other,
      )

  pub active_for_sub_component_rows :
      (c sub : String) (s : S) (l : List Outage)
      → (Outages.get_active_outages_for_sub_component env c sub s).0 ≡ ok l
      → (p : Outage → Bool)
      → count (λ o. p (bare o)) l
        ≡ count
            (λ o.
              (o.component_name == c && o.sub_component_name == sub && is_active_at (env.now s).0 o)
              && p o)
            (view s).outages
  unfolding Outages.get_active_outages_for_sub_component
  active_for_sub_component_rows c sub s l h p =
      rw (← law.now_keeps s) (law.find_rows _ (env.now s).1 l h p)

  pub active_for_component_rows :
      (c : String) (s : S) (l : List Outage)
      → (Outages.get_active_outages_for_component env c s).0 ≡ ok l
      → (p : Outage → Bool)
      → count (λ o. p (bare o)) l
        ≡ count
            (λ o. (o.component_name == c && is_active_at (env.now s).0 o) && p o)
            (view s).outages
  unfolding Outages.get_active_outages_for_component
  active_for_component_rows c s l h p = rw (← law.now_keeps s) (law.find_rows _ (env.now s).1 l h p)

  pub active_for_sub_component-Keeps :
      (c sub : String) → Keeps view (Outages.get_active_outages_for_sub_component env c sub)
  unfolding Outages.get_active_outages_for_sub_component
  active_for_sub_component-Keeps c sub s = grind (arith, law.find_keeps, law.now_keeps)

  pub active_for_component-Keeps :
      (c : String) → Keeps view (Outages.get_active_outages_for_component env c)
  unfolding Outages.get_active_outages_for_component
  active_for_component-Keeps c s = grind (arith, law.find_keeps, law.now_keeps)

  pub repo_save_err :
      (o : Outage) (user : String) (x : Error) (s : S)
      → (Outages.save_outage env o user s).0 ≡ err x
      → view (Outages.save_outage env o user s).1 ≡ view s
  unfolding Outages.save_outage
  repo_save_err o user x s h =
      law.save_err (outage_hooks env) (user_context user) (round_outage_times o) x s h
