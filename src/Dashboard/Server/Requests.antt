-- ===== src/Dashboard/Server/Requests.antt =====
-- What the server promises of every request: it changes outages and their log only for a user who is
-- authenticated and may, and never by GET.
use ship_status_dash.Base.{
  String, ◌≡◌, refl, ap, ◌∙◌, ◌⊎◌, inl, inr, Bool, true, false, Bytes, Option, none, some, List,
  Exec, All, Any, All-append, All-select, All-at,
}
use ship_status_dash.Env.{Error}
use ship_status_dash.Env.Lawful.{Tables}
use ship_status_dash.Dashboard.Services.{Services}
use ship_status_dash.Dashboard.Services.Lawful.{AreLawful}
use ship_status_dash.Dashboard.Handlers.Http.{Response, Stop}
use ship_status_dash.Dashboard.Handlers.ReadOnly.{Leaves}
use ship_status_dash.Dashboard.Auth.{Incoming, with_user}
use ship_status_dash.Dashboard.Auth.Laws.{IsAuthenticated, auth_middleware-IsAuthenticated}
use ship_status_dash.Dashboard.Server.{
  Route, routes, registered, Surroundings, handle, dispatch, serve,
}
use ship_status_dash.Dashboard.Server.Safety.{MayPass, IsSafe, routes-AreSafe}

-- What the server relies on: the router finds a registered route for the request's method, files do no
-- harm, and the handling of cross-origin requests passes a request on or answers it by itself.
pub record AreLawfulSurroundings {S : Type 0} (w : Surroundings S) (view : S → Tables)
    : Type 0 where
  pub look_up_registered :
      (rs : List (Route S)) (i : Incoming) (route : Route S)
      → w.look_up rs i ≡ some route
      → Any (λ r. r ≡ route) rs × (route.method ≡ i.method)
  pub static_files_leave : (i : Incoming) → Leaves view (w.static_files i)
  pub cors_passes :
      (next : Incoming → Exec S Stop Response) (i : Incoming) (s : S)
      → (w.cors next i s ≡ next i s) ⊎ (view (w.cors next i s).1 ≡ view s)

-- A user is authenticated, and the request may pass the route that the router found for it.
abbrev pub IsEntitled :
    {S : Type 0}
    → Surroundings S
    → Services S
    → (String → Option (Exec S Error Bytes))
    → S
    → Incoming
    → Type 0
IsEntitled w v find_cache s i =
    (user : String) × (route : Route _) × (w.look_up (registered v find_cache) i ≡ some route)
    × IsAuthenticated w.skip_auth w.authenticate i user
    × MayPass v s route.path (with_user user i.content)

module _ {S : Type 0} (v : Services S) (view : S → Tables) (law : AreLawful v view)
    (find_cache : String → Option (Exec S Error Bytes))
    (pages : (slug : String) (get : Exec S Error Bytes)
      → find_cache slug ≡ some get
      → Leaves view get)
    (w : Surroundings S) (around : AreLawfulSurroundings w view) where
  found-IsSafe :
      (i : Incoming) (route : Route S)
      → w.look_up (registered v find_cache) i ≡ some route
      → IsSafe v view route
  unfolding registered
  found-IsSafe i route e =
      let safe : All (IsSafe v view) (routes v find_cache) =
        (routes-AreSafe v view law find_cache pages).each in
      All-at (IsSafe v view) (registered v find_cache) route
        (All-append (IsSafe v view) _ _ (All-select (IsSafe v view) _ _ safe)
          (All-select (IsSafe v view) _ _ safe))
        (around.look_up_registered _ i route e).0

  handle-guarded :
      (route : Route S) (b : Bool) (i : Incoming) (s : S)
      → IsSafe v view route
      → route.is_protected ≡ b
      → w.look_up (registered v find_cache) i ≡ some route
      → (view (handle w b route.handler i s).1 ≡ view s) ⊎ IsEntitled w v find_cache s i
  handle-guarded route false i s safe e found = inl (safe.everybody e i.content s)
  handle-guarded route true i s safe e found =
      elim (auth_middleware-IsAuthenticated w.skip_auth w.authenticate route.handler i) [
        | inr (nobody, message, refused) ↦ inl (ap (λ r. view r.1) (refused s))
        | inl (user, authenticated, passes) ↦ elim (safe.guarded (with_user user i.content) s) [
          | inl kept ↦ inl (ap (λ f. view (f s).1) passes ∙ kept)
          | inr may ↦ inr (user, route, found, authenticated, may)
        ]
      ]

  handle-get :
      (route : Route S) (b : Bool) (i : Incoming) (s : S)
      → IsSafe v view route
      → route.method ≡ "GET"
      → view (handle w b route.handler i s).1 ≡ view s
  handle-get route false i s safe e = safe.get e i.content s
  handle-get route true i s safe e =
      elim (auth_middleware-IsAuthenticated w.skip_auth w.authenticate route.handler i) [
        | inr (nobody, message, refused) ↦ ap (λ r. view r.1) (refused s)
        | inl (user, authenticated, passes) ↦
            ap (λ f. view (f s).1) passes ∙ safe.get e (with_user user i.content) s
      ]

  dispatch-guarded :
      (o : Option (Route S)) (i : Incoming) (s : S)
      → w.look_up (registered v find_cache) i ≡ o
      → (view (dispatch w o i s).1 ≡ view s) ⊎ IsEntitled w v find_cache s i
  dispatch-guarded none i s e = inl (around.static_files_leave i s)
  dispatch-guarded (some route) i s e =
      handle-guarded route route.is_protected i s (found-IsSafe i route e) refl e

  dispatch-get :
      (o : Option (Route S)) (i : Incoming) (s : S)
      → w.look_up (registered v find_cache) i ≡ o
      → i.method ≡ "GET"
      → view (dispatch w o i s).1 ≡ view s
  dispatch-get none i s e m = around.static_files_leave i s
  dispatch-get (some route) i s e m =
      handle-get route route.is_protected i s (found-IsSafe i route e)
        ((around.look_up_registered _ i route e).1 ∙ m)

  -- Whatever request the server gets, it leaves the outages, the reasons and the audit log as they were,
  -- unless a user is authenticated and either the router found a route of outages and an owner entry lets
  -- the user act on the request's component, or it found the route of reports and the user is the service
  -- account that may make every status of the request's report, of which there is at least one.
  pub serve-IsEntitled :
      (i : Incoming) (s : S)
      → (view (serve w v find_cache i s).1 ≡ view s) ⊎ IsEntitled w v find_cache s i
  unfolding serve
  serve-IsEntitled i s =
      elim (around.cors_passes (λ j. dispatch w (w.look_up (registered v find_cache) j) j) i s) [
        | inr kept ↦ inl kept
        | inl passed ↦ elim (dispatch-guarded (w.look_up (registered v find_cache) i) i s refl) [
          | inl kept ↦ inl (ap (λ r. view r.1) passed ∙ kept)
          | inr entitled ↦ inr entitled
        ]
      ]

  -- A GET request leaves the outages and the audit log as they were.
  pub serve-get :
      (i : Incoming) (s : S) → i.method ≡ "GET" → view (serve w v find_cache i s).1 ≡ view s
  unfolding serve
  serve-get i s m =
      elim (around.cors_passes (λ j. dispatch w (w.look_up (registered v find_cache) j) j) i s) [
        | inr kept ↦ kept
        | inl passed ↦
            ap (λ r. view r.1) passed
            ∙ dispatch-get (w.look_up (registered v find_cache) i) i s refl m
      ]
