-- ===== src/Dashboard/Handlers/Access.antt =====
-- Who may change a component's outages: `IsUserAuthorizedForComponent` (cmd/dashboard/handlers.go).
use ship_status_dash.Base.{
  String, ◌≡◌, ◌≢◌, ◌↔◌, ◌⊎◌, Bool, true, false, not, ◌&&◌, List, [], ◌∷◌, arith, Any, eq_iff, Exec,
  ◌==◌, string_eq, if◌then◌else◌, raise_if,
}
use ship_status_dash.Types.Config.{Owner, Component}
use ship_status_dash.Dashboard.Services.{Services}
use ship_status_dash.Dashboard.Handlers.Http.{Stop, respond_with_error}

-- `user` and `in_group` are the user's name and groups.
unfoldable pub matches_owner : String → (String → Bool) → List Owner → Bool
matches_owner user in_group [] = false
matches_owner user in_group (o ∷ os) =
    let rest = matches_owner user in_group os in
    if not (o.user == "") && o.user == user
    then true
    else if not (o.rover_group == "")
    then (if in_group o.rover_group then true else rest)
    else rest

unfoldable pub is_user_authorized_for_component :
    {S : Type 0} → Services S → S → String → Component → Bool
unfolding matches_owner
is_user_authorized_for_component v s user component =
    matches_owner user (v.is_user_in_group s user) component.owners

-- The guard of the handlers that change something.
abbrev pub require_authorized :
    {S : Type 0} → Services S → String → Component → Exec S Stop (Unit {0})
require_authorized v user component s =
    raise_if (not (is_user_authorized_for_component v s user component))
      (respond_with_error 403 "You are not authorized to perform this action on this component") s

-- An owner entry that lets a user in: by name, or by a group of which the user is a member.
abbrev pub Admits : {S : Type 0} → Services S → S → String → Owner → Type 0
Admits v s user o =
    ((o.user ≢ "") × (o.user ≡ user))
    ⊎ ((o.rover_group ≢ "") × (v.is_user_in_group s user o.rover_group ≡ true))

module _ {S : Type 0} (v : Services S) (s : S) (user : String) where
  Admits-of_matches :
      (os : List Owner)
      → matches_owner user (v.is_user_in_group s user) os ≡ true
      → Any (Admits v s user) os
  unfolding matches_owner
  Admits-of_matches [] h = cc
  Admits-of_matches (o ∷ os) h =
      ground
        (arith, Admits-of_matches os, eq_iff o.user "", eq_iff o.user user, eq_iff o.rover_group "")

  matches_of_Admits :
      (os : List Owner)
      → Any (Admits v s user) os
      → matches_owner user (v.is_user_in_group s user) os ≡ true
  unfolding matches_owner
  matches_of_Admits [] h = elim h [ ]
  matches_of_Admits (o ∷ os) h =
      ground
        (arith, matches_of_Admits os, eq_iff o.user "", eq_iff o.user user, eq_iff o.rover_group "")

  -- A user is authorized exactly when some owner entry has the user's name, or a group that the
  -- cache says the user is in. Service accounts and empty entries let nobody in.
  pub authorized_iff :
      (component : Component)
      → (is_user_authorized_for_component v s user component ≡ true)
        ↔ Any (Admits v s user) component.owners
  unfolding is_user_authorized_for_component
  authorized_iff component =
      (Admits-of_matches component.owners, matches_of_Admits component.owners)
