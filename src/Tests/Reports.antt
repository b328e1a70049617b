-- ===== src/Tests/Reports.antt =====
-- The services over the world in memory do not fail; a report in a world without outages.
use ship_status_dash.Base.{
  ℕ, String, ◌≡◌, refl, ◌≢◌, List, [], ◌∷◌, Result, ok, err, arith, some, map, ◌++◌, ◌<◌, count,
  ◌==◌, nat_eq, ◌>>=◌, ◌>>◌, Exec, pure,
}
use ship_status_dash.Types.Severity.{to_severity}
use ship_status_dash.Types.Outage.{Outage, Reason, bare}
use ship_status_dash.Env.{Error}
use ship_status_dash.Env.Lawful.{Tables}
use ship_status_dash.Repositories.Hooks
use ship_status_dash.Repositories.Outages
use ship_status_dash.Repositories.Pings
use ship_status_dash.Manager.Db
use ship_status_dash.Manager.Db.{db_outage_manager, create_reasons, create_rows, report_created}
use ship_status_dash.Dashboard.Services.{gorm_ping_repository}
use ship_status_dash.Dashboard.Report.{process_status}
use ship_status_dash.Dashboard.Report.Effects.{AreUp, IsHandled, process_status-IsHandled}
use ship_status_dash.Types.Config.{get_component_by_slug, get_sub_component_by_slug}
use ship_status_dash.Tests.World.{
  now, view, world, in_transaction, numbered, next_id, rows, first_of, commit, added,
}
use ship_status_dash.Tests.Lawful.{next_id-fresh}
use ship_status_dash.Tests.Fixture.{
  services, services-AreLawful, config, prow, tide, status, reporter, no_tables,
}

all_created :
    (id : ℕ) (reasons : List Reason) (s : Tables)
    → (create_reasons (world config) id reasons s).0 ≡ ok tt
unfolding create_reasons Outages.create_reason
all_created id [] s = refl
all_created id (r ∷ rs) s = all_created id rs _

next_id-pos : (l : List Outage) → 0 < next_id l
next_id-pos [] = omega arith
next_id-pos (r ∷ rs) = omega (arith, next_id-pos rs)

first_of_last :
    (n : ℕ) (l : List Outage) (o : Outage)
    → count (λ r. r.id == n) (map bare l) ≡ 0
    → o.id ≡ n
    → 0 < n
    → first_of (λ r. r.id == n) (map bare (map bare l ++ (bare o ∷ []))) ≡ ok (bare o)
first_of_last n [] o h e k = ground (arith, e, k)
first_of_last n (r ∷ rs) o h e k = ground (arith, first_of_last n rs o, h, e, k)

bind_ok :
    {A B : Type 0} (m : Exec Tables Error A) (f : A → Exec Tables Error B) (s : Tables) (a : A)
    (b : B)
    → (m s).0 ≡ ok a
    → ((t : Tables) → (f a t).0 ≡ ok b)
    → ((m >>= f) s).0 ≡ ok b
bind_ok m f s a b h k = rw (h, ◌>>=◌) (k _)

commit_done :
    (o : Outage) (s : Tables) (r : Result Error (Unit {0}) × Tables)
    → r.0 ≡ ok tt
    → (commit o s r).0 ≡ ok o
commit_done o s (ok tt, t) h = refl
commit_done o s (err e, t) h = cc

hook_done :
    (o fresh : Outage) (user : String) (s : Tables)
    → first_of (λ r. r.id == o.id) (rows s) ≡ ok fresh
    → (Hooks.after (world config) Hooks.create (Outages.user_context user) o s).0 ≡ ok tt
unfolding Hooks.after
hook_done o fresh user s h = ground (arith, h)

inserted :
    (o : Outage) (user : String) (s : Tables)
    → (Outages.create_outage (world config) o user s).0
      ≡ ok (numbered (Outages.round_outage_times o) s)
unfolding Outages.create_outage Hooks.outage_hooks
inserted o user s =
    let row = numbered (Outages.round_outage_times o) s in
    commit_done row s _ (
      hook_done row (bare row) user (added (Outages.round_outage_times o) s) (
        first_of_last (next_id (rows s)) s.outages row
          (next_id-fresh (rows s) (next_id (rows s)) (omega arith)) refl (next_id-pos (rows s))))

rows_created :
    (o : Outage) (reasons : List Reason) (user : String) (s : Tables)
    → (create_rows (world config) o reasons user s).0
      ≡ ok (numbered (Outages.round_outage_times o) s)
unfolding create_rows
rows_created o reasons user s =
    let row = numbered (Outages.round_outage_times o) s in
    bind_ok (Outages.create_outage (world config) o user)
      (λ o'. do create_reasons (world config) o'.id reasons; pure o') s row row (inserted o user s)
      (λ t.
        bind_ok (create_reasons (world config) row.id reasons) (λ _. pure row) t tt row
          (all_created row.id reasons t) (λ u. refl))

committed :
    (r : Result Error Outage × Tables) (s : Tables) (row : Outage)
    → r.0 ≡ ok row
    → (((λ (t : Tables). in_transaction t r) >>= report_created (world config) (some reporter)) s).0
      ≡ ok row
committed (ok o, t) s row h = h
committed (err e, t) s row h = cc

services-AreUp : AreUp services
unfolding db_outage_manager Db.create_outage gorm_ping_repository Pings.upsert_component_report_ping
    Outages.get_active_outages_created_by
services-AreUp = record {
  time = λ s e. omega (arith, e);
  ping = λ c sub t s. refl;
  query = λ c sub by s. (_, refl);
  create = λ o reasons user s h. (
    numbered (Outages.round_outage_times o) s,
    rw h (
        committed (create_rows (world config) o reasons user s) s _
          (rows_created o reasons user s)),
  );
}

degraded_is_known : to_severity status.status ≢ ""
unfolding to_severity
degraded_is_known = λ e. cc e

process_status-IsHandled_example :
    ((process_status services "app-ci-monitor" status no_tables).0 ≡ ok tt)
    × IsHandled view "app-ci-monitor" tide status now no_tables
        (process_status services "app-ci-monitor" status no_tables).1
unfolding get_component_by_slug get_sub_component_by_slug
process_status-IsHandled_example =
    process_status-IsHandled services view services-AreLawful services-AreUp "app-ci-monitor" tide
      status degraded_is_known (λ e. cc e) (λ e. cc e) prow no_tables refl refl
