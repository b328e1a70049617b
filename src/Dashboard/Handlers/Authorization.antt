-- ===== src/Dashboard/Handlers/Authorization.antt =====
-- Nobody changes an outage of a component without being let in by one of its owner entries.
use ship_status_dash.Base.{
  ℕ, String, ◌≡◌, refl, ◌⊎◌, inl, inr, Bool, true, false, not, Option, none, some, Exec, err,
  require, raise_if, ◌>>=◌, ◌>>◌, Any,
}
use ship_status_dash.Types.Config.{
  Component, SubComponent, get_component_by_slug, get_sub_component_by_slug,
}
use ship_status_dash.Dashboard.Services.{Services}
use ship_status_dash.Dashboard.Handlers.Http.{
  Response, Stop, Request, respond_with_error, require_component, require_sub_component,
  require_outage_id, parse_uint,
}
use ship_status_dash.Dashboard.Handlers.Access.{
  is_user_authorized_for_component, require_authorized, Admits, authorized_iff,
}
use ship_status_dash.Dashboard.Handlers.Outages.{
  create_outage_json, update_outage_json, delete_outage_handler, create_authorized,
  update_authorized, delete_authorized,
}

-- The user may act on the component that the request names.
abbrev pub MayAct : {S : Type 0} → Services S → S → Request → Type 0
MayAct v s r =
    (user : String) × (component : Component) × (r.user ≡ some user)
    × (get_component_by_slug (v.config s) r.component_name ≡ some component)
    × Any (Admits v s user) component.owners

-- An error response, with the world as it was.
abbrev pub Refused : {S A : Type 0} → Exec S Stop A → S → Type 0
Refused m s =
    (status : ℕ) × (message : String) × (m s ≡ (err (respond_with_error status message), s))

module _ {S : Type 0} {A : Type 0} (s : S) {P : Type 0} (k : A → Exec S Stop Response) where
  -- Behind a guard that refuses, nothing runs.
  behind_require :
      (o : Option A) (status : ℕ) (message : String)
      → ((a : A) → o ≡ some a → P ⊎ Refused (k a) s)
      → P ⊎ Refused (require o (respond_with_error status message) >>= k) s
  behind_require none status message h = inr (status, message, refl)
  behind_require (some a) status message h = h a refl

behind_test :
    {S P : Type 0} (b : Bool) (s : S) (k : Exec S Stop Response) (status : ℕ) (message : String)
    → (b ≡ true → P)
    → P ⊎ Refused (raise_if (not b) (respond_with_error status message) >> k) s
behind_test true s k status message h = inl (h refl)
behind_test false s k status message h = inr (status, message, refl)

module _ {S : Type 0} (v : Services S) (s : S) (r : Request) where
  behind_authorized :
      (user : String) (component : Component) (k : Exec S Stop Response)
      → r.user ≡ some user
      → get_component_by_slug (v.config s) r.component_name ≡ some component
      → MayAct v s r ⊎ Refused (require_authorized v user component >> k) s
  behind_authorized user component k e f =
      behind_test (is_user_authorized_for_component v s user component) s k 403
        "You are not authorized to perform this action on this component"
        (λ h. (user, component, e, f, (authorized_iff v s user component).0 h))

  behind_component :
      (user message : String) (k : SubComponent → Exec S Stop Response)
      → r.user ≡ some user
      → MayAct v s r
        ⊎ Refused
            (require_component v r.component_name >>= λ component.
              require_sub_component v message component r.sub_component_name >>= λ sub.
              require_authorized v user component >> k sub)
            s
  behind_component user message k e =
      behind_require s
        (λ component. require_sub_component v message component r.sub_component_name >>= λ sub.
          require_authorized v user component >> k sub)
        (get_component_by_slug (v.config s) r.component_name) 404 "Component not found"
        (λ component f.
          behind_require s (λ sub. require_authorized v user component >> k sub)
            (get_sub_component_by_slug component r.sub_component_name) 404 message
            (λ sub _. behind_authorized user component (k sub) e f))

  -- A request to create an outage is refused, and nothing changes, unless an owner entry of its
  -- component lets its user in.
  pub create-MayAct : MayAct v s r ⊎ Refused (create_outage_json v r) s
  unfolding create_outage_json
  create-MayAct =
      behind_require s
        (λ user. require_component v r.component_name >>= λ component.
          require_sub_component v "Sub-Component not found" component r.sub_component_name
          >>= λ sub. require_authorized v user component >> create_authorized v r user sub)
        r.user 401 "no active user found"
        (λ user e. behind_component user _ (create_authorized v r user) e)

  -- A request to change an outage is refused, and nothing changes, unless an owner entry of its
  -- component lets its user in.
  pub update-MayAct : MayAct v s r ⊎ Refused (update_outage_json v r) s
  unfolding update_outage_json
  update-MayAct =
      let go : String → ℕ → Exec S Stop Response = λ user id.
        require_component v r.component_name >>= λ component.
        require_sub_component v "Sub-Component not found" component r.sub_component_name >>= λ sub.
        require_authorized v user component >> update_authorized v r user id in
      behind_require s (λ user. require_outage_id v r >>= go user) r.user 401 "no active user found"
        (λ user e.
          behind_require s (go user) (parse_uint r.outage_id) 400 "Invalid outage ID" (λ id _.
            behind_component user "Sub-Component not found" (λ _. update_authorized v r user id) e))

  -- A request to delete an outage is refused, and nothing changes, unless an owner entry of its
  -- component lets its user in.
  pub delete-MayAct : MayAct v s r ⊎ Refused (delete_outage_handler v r) s
  unfolding delete_outage_handler
  delete-MayAct =
      behind_require s
        (λ user. require_component v r.component_name >>= λ component.
          require_sub_component v "Sub-component not found" component r.sub_component_name
          >>= λ sub. require_authorized v user component >> delete_authorized v r user)
        r.user 401 "no active user found"
        (λ user e. behind_component user _ (λ _. delete_authorized v r user) e)
