-- ===== src/Dashboard/Handlers/Changes.antt =====
-- What the requests to create and to update an outage do to it.
use ship_status_dash.Base.{
  ℕ, String, ◌≡◌, refl, ap, ◌∙◌, Bool, true, false, not, Option, none, some, Exec, ok, pure,
  raise_if, ◌>>=◌, ◌>>◌, bind-eq-ok, if◌then◌else◌, nat_eq,
}
use ship_status_dash.Types.Severity.{is_valid_severity}
use ship_status_dash.Types.Outage.{NullTime, null_time, Outage}
use ship_status_dash.Dashboard.Services.{Services, read_clock}
use ship_status_dash.Dashboard.Handlers.Http.{UpsertOutageRequest, Stop, respond_with_error}
use ship_status_dash.Dashboard.Handlers.Outages.{
  apply_update, set_severity, set_start_time, set_end_time, set_description, set_confirmed,
  set_triage_notes, confirm_now,
}

-- An outage without the columns that an update may change.
abbrev pub untouched : Outage → Outage
untouched o = record o {
  severity = "";
  start_time = 0;
  end_time = null_time;
  description = "";
  confirmed_at = null_time;
  triage_notes = none;
}

-- A change after which the other columns are as before.
abbrev Touches : Outage → Outage → Type 0
Touches o o' = untouched o' ≡ untouched o

if-Touches : (b : Bool) (o o' : Outage) → Touches o o' → Touches o (if b then o' else o)
if-Touches true o o' e = e
if-Touches false o o' e = refl

set_start_time-Touches : (t : Option ℕ) (o : Outage) → Touches o (set_start_time t o)
set_start_time-Touches none o = refl
set_start_time-Touches (some t) o = if-Touches _ o (record o { start_time = t }) refl

set_end_time-Touches : (t : Option NullTime) (o : Outage) → Touches o (set_end_time t o)
set_end_time-Touches none o = refl
set_end_time-Touches (some t) o = if-Touches _ o (record o { end_time = t }) refl

set_description-Touches : (t : Option String) (o : Outage) → Touches o (set_description t o)
set_description-Touches none o = refl
set_description-Touches (some t) o = refl

set_triage_notes-Touches : (t : Option String) (o : Outage) → Touches o (set_triage_notes t o)
set_triage_notes-Touches none o = refl
set_triage_notes-Touches (some t) o = refl

module _ {S : Type 0} (v : Services S) where
  set_severity-Touches :
      (t : Option String) (o o' : Outage) (s s' : S)
      → set_severity v t o s ≡ (ok o', s')
      → Touches o o'
  set_severity-Touches none o o' s s' h = cc
  set_severity-Touches (some t) o o' s s' h = go (is_valid_severity t) h
    where
      go :
          (b : Bool)
          → ((raise_if (not b) (
                  respond_with_error 400
                    "Invalid severity. Must be one of: Down, Degraded, Suspected")
                >> pure (record o { severity = t }))
              s)
            ≡ (ok o', s')
          → Touches o o'
      go true h = cc
      go false h = cc

  set_confirmed-Touches :
      (c : Option Bool) (o o' : Outage) (s s' : S)
      → set_confirmed v c o s ≡ (ok o', s')
      → Touches o o'
  set_confirmed-Touches none o o' s s' h = cc
  set_confirmed-Touches (some true) o o' s s' h = go (not o.confirmed_at.valid) h
    where
      go :
          (b : Bool)
          → (if b then (do now ← read_clock v; pure (confirm_now o now)) else pure {E = Stop} o) s
            ≡ (ok o', s')
          → Touches o o'
      go true h = cc
      go false h = cc
  set_confirmed-Touches (some false) o o' s s' h = go o.confirmed_at.valid h
    where
      go :
          (b : Bool)
          → (if b then pure {E = Stop} (record o { confirmed_at = null_time }) else pure o) s
            ≡ (ok o', s')
          → Touches o o'
      go true h = cc
      go false h = cc

  -- Whatever an update request asks for, the outage that comes of it keeps its id, its component
  -- and sub-component, its origin, its creator, its reasons and its Slack threads.
  pub apply_update-untouched :
      (u : UpsertOutageRequest) (o o' : Outage) (s s' : S)
      → apply_update v u o s ≡ (ok o', s')
      → untouched o' ≡ untouched o
  unfolding apply_update
  apply_update-untouched u o o' s s' h =
      let middle : Outage → Outage = λ x.
        set_description u.description (set_end_time u.end_time (set_start_time u.start_time x)) in
      let finish : Outage → Exec S Stop Outage = λ x. pure (set_triage_notes u.triage_notes x) in
      let (o1, t1, e1, h1) =
        bind-eq-ok (set_severity v u.severity o)
          (λ x. set_confirmed v u.confirmed (middle x) >>= finish) s h in
      let o2 = middle o1 in
      let (o3, t3, e3, h3) = bind-eq-ok (set_confirmed v u.confirmed o2) finish t1 h1 in
      let last : o' ≡ set_triage_notes u.triage_notes o3 = cc in
      ap untouched last
      ∙ set_triage_notes-Touches u.triage_notes o3
      ∙ set_confirmed-Touches u.confirmed o2 o3 t1 t3 e3
      ∙ set_description-Touches u.description _
      ∙ set_end_time-Touches u.end_time _
      ∙ set_start_time-Touches u.start_time o1
      ∙ set_severity-Touches u.severity o o1 s t1 e1
