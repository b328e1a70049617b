-- ===== src/Manager.antt =====
-- The interface `OutageManager` (pkg/outage/outage_manager.go) and what its clients rely on. The
-- writes return the outage as the pointer that was passed holds it afterwards.
pub mod Db
mod Writes
pub mod Refinement
use ship_status_dash.Base.{
  ℕ, String, ◌≡◌, Bool, ◌&&◌, List, [], ◌∷◌, ◌++◌, map, true, Any, Exec, ok, err, count, ◌==◌,
  nat_eq, string_eq,
}
use ship_status_dash.Types.Outage.{Outage, Reason, OutageAuditLog, bare, owned}
use ship_status_dash.Env.{Error}
use ship_status_dash.Env.Lawful.{Tables, Keeps, put_row, remove_row}
use ship_status_dash.Repositories.Outages.{
  round_outage_times, is_active_at, reported_by, discovered_by,
}

pub record OutageManager (S : Type 0) : Type 0 where
  pub create_outage : Outage → List Reason → String → Exec S Error Outage
  pub update_outage : Outage → String → Exec S Error Outage
  pub get_outage_by_id : String → String → ℕ → Exec S Error Outage
  pub get_outages_for_sub_component : String → String → Exec S Error (List Outage)
  pub get_outages_for_component : String → List String → Exec S Error (List Outage)
  pub get_active_outages_for_sub_component : String → String → Exec S Error (List Outage)
  pub get_active_outages_for_component : String → Exec S Error (List Outage)
  pub get_active_outages_created_by : String → String → String → Exec S Error (List Outage)
  pub get_active_outages_discovered_from : String → String → String → Exec S Error (List Outage)
  pub get_outage_audit_logs : ℕ → Exec S Error (List OutageAuditLog)
  pub delete_outage : Outage → String → Exec S Error (Unit {0})

module _ {S : Type 0} (view : S → Tables) where
  -- An entry of the audit log for an operation of a user on an outage was added.
  pub record Logged (operation : String) (user : String) (id : ℕ) (s s' : S) : Type 0 where
    pub entry : OutageAuditLog
    pub audit_logs : (view s').audit_logs ≡ (view s).audit_logs ++ (entry ∷ [])
    pub outage_id : entry.outage_id ≡ id
    pub user_name : entry.user ≡ user
    pub operation_text : entry.operation ≡ operation

  pub record Appended (o o' : Outage) (reasons : List Reason) (user : String) (s s' : S)
      : Type 0 where
    pub only_id : o' ≡ record (round_outage_times o) { id = o'.id }
    pub fresh : count (λ r. r.id == o'.id) (view s).outages ≡ 0
    pub outages : (view s').outages ≡ (view s).outages ++ (bare o' ∷ [])
    pub all_reasons :
        (view s').reasons
        ≡ ((view s).reasons ++ map (owned o'.id) o.reasons) ++ map (owned o'.id) reasons
    pub logged : Logged "CREATE" user o'.id s s'

  pub record Replaced (o o' : Outage) (user : String) (s s' : S) : Type 0 where
    pub same : o' ≡ round_outage_times o
    pub outages : (view s').outages ≡ put_row (round_outage_times o) (view s).outages
    pub logged : Logged "UPDATE" user o.id s s'

  pub record Removed (o : Outage) (user : String) (s s' : S) : Type 0 where
    pub outages : (view s').outages ≡ remove_row o.id (view s).outages
    pub logged : Logged "DELETE" user o.id s s'

-- A write happens whole, with one entry of the audit log, or changes nothing; queries change
-- nothing, and those for active outages return the rows that match, by the clock where they look at it.
pub record IsOutageManager {S : Type 0} (m : OutageManager S) (view : S → Tables) (now : S → ℕ × S)
    : Type 0 where
  pub create_ok :
      (o o' : Outage) (reasons : List Reason) (user : String) (s : S)
      → (m.create_outage o reasons user s).0 ≡ ok o'
      → Appended view o o' reasons user s (m.create_outage o reasons user s).1
  pub create_err :
      (o : Outage) (reasons : List Reason) (user : String) (e : Error) (s : S)
      → (m.create_outage o reasons user s).0 ≡ err e
      → view (m.create_outage o reasons user s).1 ≡ view s
  pub update_ok :
      (o o' : Outage) (user : String) (s : S)
      → (m.update_outage o user s).0 ≡ ok o'
      → Replaced view o o' user s (m.update_outage o user s).1
  pub update_err :
      (o : Outage) (user : String) (e : Error) (s : S)
      → (m.update_outage o user s).0 ≡ err e
      → view (m.update_outage o user s).1 ≡ view s
  pub delete_ok :
      (o : Outage) (user : String) (s : S)
      → (m.delete_outage o user s).0 ≡ ok tt
      → Removed view o user s (m.delete_outage o user s).1
  pub delete_err :
      (o : Outage) (user : String) (e : Error) (s : S)
      → (m.delete_outage o user s).0 ≡ err e
      → view (m.delete_outage o user s).1 ≡ view s
  pub by_id_keeps : (c sub : String) (id : ℕ) → Keeps view (m.get_outage_by_id c sub id)
  pub by_id_row :
      (c sub : String) (id : ℕ) (s : S) (o : Outage)
      → (m.get_outage_by_id c sub id s).0 ≡ ok o
      → (o.id ≡ id)
        × (o.component_name ≡ c)
        × (o.sub_component_name ≡ sub)
        × Any (λ r. r ≡ bare o) (view s).outages
  pub for_sub_component_keeps :
      (c sub : String) → Keeps view (m.get_outages_for_sub_component c sub)
  pub for_component_keeps :
      (c : String) (subs : List String) → Keeps view (m.get_outages_for_component c subs)
  pub active_for_sub_component_keeps :
      (c sub : String) → Keeps view (m.get_active_outages_for_sub_component c sub)
  pub active_for_component_keeps : (c : String) → Keeps view (m.get_active_outages_for_component c)
  pub active_for_sub_component_rows :
      (c sub : String) (s : S) (l : List Outage)
      → (m.get_active_outages_for_sub_component c sub s).0 ≡ ok l
      → (p : Outage → Bool)
      → count (λ o. p (bare o)) l
        ≡ count
            (λ o.
              (o.component_name == c && o.sub_component_name == sub && is_active_at (now s).0 o)
              && p o)
            (view s).outages
  pub active_for_component_rows :
      (c : String) (s : S) (l : List Outage)
      → (m.get_active_outages_for_component c s).0 ≡ ok l
      → (p : Outage → Bool)
      → count (λ o. p (bare o)) l
        ≡ count (λ o. (o.component_name == c && is_active_at (now s).0 o) && p o) (view s).outages
  pub audit_logs_keep : (id : ℕ) → Keeps view (m.get_outage_audit_logs id)
  pub created_by_keeps : (c sub by : String) → Keeps view (m.get_active_outages_created_by c sub by)
  pub created_by_rows :
      (c sub by : String) (s : S) (l : List Outage)
      → (m.get_active_outages_created_by c sub by s).0 ≡ ok l
      → (p : Outage → Bool)
      → count (λ o. p (bare o)) l ≡ count (λ o. reported_by c sub by o && p o) (view s).outages
  pub discovered_from_keeps :
      (c sub from : String) → Keeps view (m.get_active_outages_discovered_from c sub from)
  pub discovered_from_rows :
      (c sub from : String) (s : S) (l : List Outage)
      → (m.get_active_outages_discovered_from c sub from s).0 ≡ ok l
      → (p : Outage → Bool)
      → count (λ o. p (bare o)) l ≡ count (λ o. discovered_by c sub from o && p o) (view s).outages
