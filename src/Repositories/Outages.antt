-- ===== src/Repositories/Outages.antt =====
-- `gormOutageRepository` (pkg/repositories/outage_repository.go).
use ship_status_dash.Base.{
  ℕ, ◌-◌, ◌%◌, String, Bool, true, false, not, ◌&&◌, ◌||◌, Option, none, some, List, [], ◌∷◌, Exec,
  ◌==◌, nat_eq, string_eq, ltb, if◌then◌else◌,
}
use ship_status_dash.Types.Outage.{NullTime, Outage, Reason, OutageAuditLog}
use ship_status_dash.Env.{Error, Context, Env}
use ship_status_dash.Repositories.Hooks.{outage_hooks}

-- `Truncate(time.Second)`: down to a whole second since the zero time.
abbrev pub truncate_second : ℕ → ℕ
truncate_second t = t - t % 1_000_000_000

abbrev pub round_null_time : NullTime → NullTime
round_null_time t = if t.valid then record { time = truncate_second t.time; valid = true } else t

unfoldable pub round_outage_times : Outage → Outage
round_outage_times o = record o {
  start_time = truncate_second o.start_time;
  end_time = round_null_time o.end_time;
  confirmed_at = round_null_time o.confirmed_at;
}

abbrev pub start_time_desc : Option (Outage → ℕ)
start_time_desc = some (λ o. o.start_time)

-- `slug IN ?`.
abbrev pub is_in : List String → String → Bool
is_in [] s = false
is_in (t ∷ ts) s = s == t || is_in ts s

-- `end_time IS NULL`.
abbrev pub has_no_end : Outage → Bool
has_no_end o = not o.end_time.valid

-- `end_time IS NULL OR end_time > now`.
abbrev pub is_active_at : ℕ → Outage → Bool
is_active_at now o = not o.end_time.valid || ltb now o.end_time.time

abbrev pub user_context : String → Context
user_context user = record { old_outage = none; current_user = some user }

abbrev pub reported_by : String → String → String → Outage → Bool
reported_by component sub created_by o =
    o.component_name == component
    && o.sub_component_name == sub
    && has_no_end o
    && o.created_by == created_by

abbrev pub discovered_by : String → String → String → Outage → Bool
discovered_by component sub discovered_from o =
    o.component_name == component
    && o.sub_component_name == sub
    && has_no_end o
    && o.discovered_from == discovered_from

module _ {S : Type 0} (env : Env S) where
  unfoldable pub create_outage : Outage → String → Exec S Error Outage
  create_outage o user = env.db.create (outage_hooks env) (user_context user) (round_outage_times o)

  unfoldable pub create_reason : Reason → Exec S Error Reason
  create_reason r = env.db.reasons.create r

  unfoldable pub save_outage : Outage → String → Exec S Error Outage
  save_outage o user = env.db.save (outage_hooks env) (user_context user) (round_outage_times o)

  unfoldable pub get_outage_by_id : String → String → ℕ → Exec S Error Outage
  get_outage_by_id component sub id = env.db.first (record {
    filter = λ o. o.id == id && o.component_name == component && o.sub_component_name == sub;
    order = none;
    preload = "Reasons" ∷ "SlackThreads" ∷ [];
  })

  unfoldable pub get_outages_for_sub_component : String → String → Exec S Error (List Outage)
  get_outages_for_sub_component component sub = env.db.find (record {
    filter = λ o. o.component_name == component && o.sub_component_name == sub;
    order = start_time_desc;
    preload = "Reasons" ∷ [];
  })

  unfoldable pub get_outages_for_component : String → List String → Exec S Error (List Outage)
  get_outages_for_component component subs = env.db.find (record {
    filter = λ o. o.component_name == component && is_in subs o.sub_component_name;
    order = start_time_desc;
    preload = "Reasons" ∷ [];
  })

  unfoldable pub get_active_outages_for_sub_component : String → String → Exec S Error (List Outage)
  get_active_outages_for_sub_component component sub s =
      let (now, s') = env.now s in
      env.db.find
        (record {
          filter = λ o.
              o.component_name == component && o.sub_component_name == sub && is_active_at now o;
          order = start_time_desc;
          preload = [];
        })
        s'

  unfoldable pub get_active_outages_for_component : String → Exec S Error (List Outage)
  get_active_outages_for_component component s =
      let (now, s') = env.now s in
      env.db.find
        (record {
          filter = λ o. o.component_name == component && is_active_at now o;
          order = start_time_desc;
          preload = [];
        })
        s'

  unfoldable pub get_active_outages_created_by :
      String → String → String → Exec S Error (List Outage)
  get_active_outages_created_by component sub created_by =
      env.db.find
        (record { filter = reported_by component sub created_by; order = none; preload = [] })

  unfoldable pub get_active_outages_discovered_from :
      String → String → String → Exec S Error (List Outage)
  get_active_outages_discovered_from component sub discovered_from =
      env.db.find (record {
        filter = discovered_by component sub discovered_from;
        order = none;
        preload = [];
      })

  unfoldable pub get_outage_audit_logs : ℕ → Exec S Error (List OutageAuditLog)
  get_outage_audit_logs id =
      env.db.audit_logs.find
        (record { filter = λ a. a.outage_id == id; order = some (λ a. a.created_at); preload = [] })

  unfoldable pub delete_outage : Outage → String → Exec S Error (Unit {0})
  delete_outage o user = env.db.delete (outage_hooks env) (user_context user) o
