-- ===== src/Dashboard/Server/Safety.antt =====
-- What a request can do to the outages and the audit log, from the middleware to the tables.
use ship_status_dash.Base.{
  String, ◌≡◌, ◌≢◌, refl, ◌⊎◌, inl, inr, Bool, true, false, Bytes, Option, none, some, List, [],
  ◌∷◌, Exec, arith, All, eq_iff, Bool-cases, ◌==◌, string_eq,
}
use ship_status_dash.Env.{Error}
use ship_status_dash.Env.Lawful.{Tables}
use ship_status_dash.Dashboard.Services.{Services}
use ship_status_dash.Dashboard.Services.Lawful.{AreLawful}
use ship_status_dash.Dashboard.Report.{ReportRequest, validate_request}
use ship_status_dash.Dashboard.Report.Validation.{IsPermitted, validate_request_iff}
use ship_status_dash.Dashboard.Handlers.Http.{Request, Handler}
use ship_status_dash.Dashboard.Handlers.Authorization.{
  MayAct, Refused, create-MayAct, update-MayAct, delete-MayAct,
}
use ship_status_dash.Dashboard.Handlers.Listing.{post_component_monitor_report_json, is_nil}
use ship_status_dash.Dashboard.Handlers.Outages.{
  update_outage_json, delete_outage_handler, create_outage_json,
}
use ship_status_dash.Dashboard.Handlers.ReadOnly.{
  Leaves, health_json-Leaves, get_components_json-Leaves, list_tags_json-Leaves,
  list_sub_components_json-Leaves, get_component_info_json-Leaves, get_outage_json-Leaves,
  get_outages_json-Leaves, get_outage_audit_logs_json-Leaves, get_sub_component_outages_json-Leaves,
  get_sub_component_status_json-Leaves, get_component_status_json-Leaves,
  get_all_components_status_json-Leaves, get_authenticated_user_json-Leaves,
  get_external_page_html-Leaves,
}
use ship_status_dash.Dashboard.Server.{Route, outage_path, outages_path, report_path, routes}

-- A report that its sender may make: it has a status, and every status is on a sub-component that its monitor watches, of a
-- component that the sender's account owns.
abbrev pub MayReport : {S : Type 0} → Services S → S → Request → Type 0
MayReport v s r =
    (req : ReportRequest) × (account : String) × (r.report ≡ some req)
    × (r.user ≡ some account)
    × (req.statuses ≢ [])
    × All (IsPermitted (v.config s) req.component_monitor account) req.statuses

-- What a request has to be for the route with a path to change something: on the routes of outages, of a
-- user who may act on them, and on the route of reports, a report that its sender may make.
abbrev pub MayPass : {S : Type 0} → Services S → S → String → Request → Type 0
MayPass v s path r =
    ((path ≡ outage_path) ⊎ (path ≡ outages_path)) × MayAct v s r
    ⊎ (path ≡ report_path) × MayReport v s r

module _ {S : Type 0} (v : Services S) (view : S → Tables) where
  -- A handler that changes something, on the route with a path, only for a request that may.
  abbrev pub IsGuarded : String → Handler S → Type 0
  IsGuarded path h = (r : Request) (s : S) → (view (h r s).1 ≡ view s) ⊎ MayPass v s path r

  MayReport-of_body :
      (s : S) (r : Request) (report : Option ReportRequest) (user : Option String)
      → r.report ≡ report
      → r.user ≡ user
      → (view (post_component_monitor_report_json v r s).1 ≡ view s) ⊎ MayReport v s r
  unfolding post_component_monitor_report_json
  MayReport-of_body s r none user e f = inl (rw e refl)
  MayReport-of_body s r (some req) none e f = inl (ground (arith, e, f))
  MayReport-of_body s r (some req) (some account) e f = elim (Bool-cases (is_nil req.statuses)) [
    | inl empty ↦ inl (ground (arith, e, f, empty))
    | inr some_status ↦ elim (Bool-cases (is_nil (validate_request (v.config s) req account))) [
      | inr refused ↦ inl (ground (arith, e, f, some_status, refused))
      | inl fine ↦ inr (
        req,
        account,
        e,
        f,
        λ none. ground (arith, none, some_status),
        (validate_request_iff (v.config s) req account).0 (ground (arith, fine)),
      )
    ]
  ]

  of_Refused :
      (path : String) (h : Handler S) (r : Request) (s : S)
      → (path ≡ outage_path) ⊎ (path ≡ outages_path)
      → MayAct v s r ⊎ Refused (h r) s
      → (view (h r s).1 ≡ view s) ⊎ MayPass v s path r
  of_Refused path h r s p (inl may) = inr (inl (p, may))
  of_Refused path h r s p (inr (status, message, e)) = inl (rw e refl)

  update-IsGuarded : IsGuarded outage_path (update_outage_json v)
  update-IsGuarded r s =
      of_Refused outage_path (update_outage_json v) r s (inl refl) (update-MayAct v s r)

  delete-IsGuarded : IsGuarded outage_path (delete_outage_handler v)
  delete-IsGuarded r s =
      of_Refused outage_path (delete_outage_handler v) r s (inl refl) (delete-MayAct v s r)

  create-IsGuarded : IsGuarded outages_path (create_outage_json v)
  create-IsGuarded r s =
      of_Refused outages_path (create_outage_json v) r s (inr refl) (create-MayAct v s r)

  report-IsGuarded : IsGuarded report_path (post_component_monitor_report_json v)
  report-IsGuarded r s = elim (MayReport-of_body s r r.report r.user refl refl) [
    | inl kept ↦ inl kept
    | inr may ↦ inr (inr (refl, may))
  ]

  -- A route that serves GET or is open to everybody only shows things, and any other changes something
  -- only for a user who may.
  pub record IsSafe (route : Route S) : Type 0 where
    pub get : route.method ≡ "GET" → (r : Request) → Leaves view (route.handler r)
    pub everybody : route.is_protected ≡ false → (r : Request) → Leaves view (route.handler r)
    pub guarded : IsGuarded route.path route.handler

  module _ (path method : String) (is_protected : Bool) (h : Handler S) where
    abbrev route_of : Route S
    route_of = record { path = path; method = method; handler = h; is_protected = is_protected }

    shows : ((r : Request) → Leaves view (h r)) → IsSafe route_of
    shows leaves = record {
      get = λ _. leaves;
      everybody = λ _. leaves;
      guarded = λ r s. inl (leaves r s);
    }

    acts : (method == "GET") ≡ false → is_protected ≡ true → IsGuarded path h → IsSafe route_of
    acts other closed safe = record {
      get = λ e. ground (arith, other, e, eq_iff method "GET");
      everybody = λ e. cc (closed, e);
      guarded = safe;
    }

  pub record AreSafe (rs : List (Route S)) : Type 0 where
    pub each : All IsSafe rs

  infixr 4 ◌&◌
  ◌&◌ :
      {route : Route S} {rest : List (Route S)}
      → IsSafe route
      → AreSafe rest
      → AreSafe (route ∷ rest)
  h & k = record { each = (h, k.each) }

  module _ (law : AreLawful v view) (find_cache : String → Option (Exec S Error Bytes))
      (pages : (slug : String) (get : Exec S Error Bytes)
        → find_cache slug ≡ some get
        → Leaves view get) where
    pub routes-AreSafe : AreSafe (routes v find_cache)
    unfolding routes
    routes-AreSafe =
        shows _ _ _ _ (health_json-Leaves v view law)
        & shows _ _ _ _ (get_all_components_status_json-Leaves v view law)
        & shows _ _ _ _ (get_component_status_json-Leaves v view law)
        & shows _ _ _ _ (get_sub_component_status_json-Leaves v view law)
        & shows _ _ _ _ (get_components_json-Leaves v view law)
        & shows _ _ _ _ (list_tags_json-Leaves v view law)
        & shows _ _ _ _ (list_sub_components_json-Leaves v view law)
        & shows _ _ _ _ (get_component_info_json-Leaves v view law)
        & shows _ _ _ _ (get_outages_json-Leaves v view law)
        & shows _ _ _ _ (get_outage_json-Leaves v view law)
        & shows _ _ _ _ (get_sub_component_outages_json-Leaves v view law)
        & shows _ _ _ _ (get_outage_audit_logs_json-Leaves v view law)
        & acts outage_path "PATCH" true (update_outage_json v) refl refl update-IsGuarded
        & acts outage_path "DELETE" true (delete_outage_handler v) refl refl delete-IsGuarded
        & acts outages_path "POST" true (create_outage_json v) refl refl create-IsGuarded
        & shows _ _ _ _ (get_authenticated_user_json-Leaves v view law)
        & acts report_path "POST" true (post_component_monitor_report_json v) refl refl
            report-IsGuarded
        & shows _ _ _ _ (get_external_page_html-Leaves v view law find_cache pages)
        & record { each = tt }
