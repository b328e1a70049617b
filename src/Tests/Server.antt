-- ===== src/Tests/Server.antt =====
-- The server in the world in memory, with a router that compares paths as they stand, and its
-- theorems at a request that changes an outage.
use ship_status_dash.Base.{
  ◌≡◌, refl, ◌⊎◌, inl, inr, false, ◌&&◌, String, Option, none, some, List, [], ◌∷◌, ok, Exec, Bytes,
  ascii, Any, arith, eq_iff, ◌==◌, string_eq, if◌then◌else◌, Bool-cases,
}
use ship_status_dash.Env.{Error}
use ship_status_dash.Env.Lawful.{Tables}
use ship_status_dash.Dashboard.Pages.Script.{
  inject_resize_script, HasScript, inject_resize_script-HasScript,
}
use ship_status_dash.Dashboard.Handlers.Outages.{update_outage_json}
use ship_status_dash.Dashboard.Handlers.ReadOnly.{Leaves}
use ship_status_dash.Dashboard.Auth.{Incoming, match}
use ship_status_dash.Dashboard.Auth.Laws.{GoesOn, auth_middleware-IsAuthenticated}
use ship_status_dash.Dashboard.Handlers.Http.{no_content}
use ship_status_dash.Dashboard.Server.{Route, outage_path, Surroundings, serve}
use ship_status_dash.Dashboard.Server.Requests.{
  AreLawfulSurroundings, IsEntitled, serve-IsEntitled, serve-get,
}
use ship_status_dash.Tests.World.{view}
use ship_status_dash.Tests.Fixture.{services, services-AreLawful, tables, request}

abbrev first_route : List (Route Tables) → Incoming → Option (Route Tables)
first_route [] i = none
first_route (r ∷ rs) i =
    let rest = first_route rs i in if r.method == i.method && r.path == i.path then some r else rest

first_route_lem :
    (rs : List (Route Tables)) (i : Incoming) (route : Route Tables)
    → first_route rs i ≡ some route
    → Any (λ r. r ≡ route) rs × (route.method ≡ i.method)
first_route_lem [] i route h = cc
first_route_lem (r ∷ rs) i route h = elim (Bool-cases (r.method == i.method && r.path == i.path)) [
  | inl here ↦
      let same : r ≡ route = ground (arith, here, h) in
      (inl same, ground (arith, here, same, eq_iff r.method i.method))
  | inr away ↦
      let (member, method) = first_route_lem rs i route (ground (arith, away, h)) in
      (inr member, method)
]

abbrev surroundings : Surroundings Tables
surroundings = record {
  skip_auth = false;
  authenticate = λ i. match;
  look_up = first_route;
  static_files = λ i s. (ok (record { status_code = 200; body = no_content }), s);
  cors = λ next. next;
}

surroundings_lem : AreLawfulSurroundings surroundings view
surroundings_lem = record {
  look_up_registered = first_route_lem;
  static_files_leave = λ i s. refl;
  cors_passes = λ next i s. inl refl;
}

abbrev pages : String → Option (Exec Tables Error Bytes)
pages slug = if slug == "test-page" then some (λ s. (ok (ascii "<body>page</body>"), s)) else none

pages_leave :
    (slug : String) (get : Exec Tables Error Bytes) → pages slug ≡ some get → Leaves view get
pages_leave slug get h s = ground (arith, h)

abbrev patch : Incoming
patch = record { method = "PATCH"; path = outage_path; forwarded_user = "grace"; content = request }

abbrev show : Incoming
show = record { method = "GET"; path = outage_path; forwarded_user = ""; content = request }

serve-IsEntitled_example :
    (view (serve surroundings services pages patch tables).1 ≡ view tables)
    ⊎ IsEntitled surroundings services pages tables patch
serve-IsEntitled_example =
    serve-IsEntitled services view services-AreLawful pages pages_leave surroundings
      surroundings_lem patch tables

serve-get_example : view (serve surroundings services pages show tables).1 ≡ view tables
serve-get_example =
    serve-get services view services-AreLawful pages pages_leave surroundings surroundings_lem show
      tables refl

auth_middleware-IsAuthenticated_example :
    GoesOn false (λ i. match) (update_outage_json services) patch
auth_middleware-IsAuthenticated_example =
    auth_middleware-IsAuthenticated false (λ i. match) (update_outage_json services) patch

inject_resize_script-HasScript_example :
    HasScript (ascii "<body>page</body>") (inject_resize_script (ascii "<body>page</body>"))
inject_resize_script-HasScript_example = inject_resize_script-HasScript (ascii "<body>page</body>")
