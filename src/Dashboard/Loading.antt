-- ===== src/Dashboard/Loading.antt =====
-- The load of the dashboard's configuration (cmd/dashboard/main.go), and the groups of its owners
-- (pkg/auth/groups.go). The file, the decoder of YAML and the API that returns a group are parameters.
pub mod Laws
use ship_status_dash.Base.{
  String, ◌<>◌, Char, Bool, true, false, not, ◌||◌, Option, none, some, List, [], ◌∷◌, ◌++◌, map,
  Bytes, Exec, Result, ok, err, pure, raise, raise_if, require, or_raise, ◌>>=◌, ◌>>◌, ◌==◌,
  string_eq, if◌then◌else◌, has_key, insert_key,
}
use ship_status_dash.Types.Config.{SubComponent, Owner, Component, Tag, DashboardConfig}
use ship_status_dash.Utils.Slugify.{slugify}
use ship_status_dash.Monitor.Junit.Suites.{sort_names}

abbrev is_nil : {A : Type 0} → List A → Bool
is_nil [] = true
is_nil (x ∷ xs) = false

-- The first component without an owner.
unfoldable pub without_owner : List Component → Option Component
without_owner [] = none
without_owner (c ∷ cs) = let rest = without_owner cs in if is_nil c.owners then some c else rest

-- A use of a tag that no tag of the configuration has: by which sub-component of which component.
pub record UnknownTag : Type 0 where
  pub tag : String
  pub component : String
  pub sub_component : String

-- `lower` is the lower case of a character, `quote` the format `%q` of a text.
module _ (lower : Char → Char) (quote : String → String) where
  abbrev pub slugged_sub : SubComponent → SubComponent
  slugged_sub s = record s { slug = slugify lower s.name }

  abbrev pub slugged : Component → Component
  slugged c = record c {
    slug = slugify lower c.name;
    subcomponents = map slugged_sub c.subcomponents;
  }

  abbrev pub has_tag : String → List Tag → Bool
  has_tag name [] = false
  has_tag name (t ∷ ts) = slugify lower t.name == slugify lower name || has_tag name ts

  -- The first tag of a list that is unknown.
  unfoldable pub unknown_tag : List Tag → List String → Option String
  unknown_tag tags [] = none
  unknown_tag tags (name ∷ names) =
      let rest = unknown_tag tags names in if has_tag name tags then rest else some name

  abbrev pub or_else : Option UnknownTag → Option UnknownTag → Option UnknownTag
  or_else none later = later
  or_else (some u) later = some u

  abbrev pub use_in : Component → SubComponent → Option String → Option UnknownTag
  use_in c s none = none
  use_in c s (some name) = some (record { tag = name; component = c.name; sub_component = s.name })

  unfoldable pub unknown_in_subs : List Tag → Component → List SubComponent → Option UnknownTag
  unknown_in_subs tags c [] = none
  unknown_in_subs tags c (s ∷ ss) =
      or_else (use_in c s (unknown_tag tags s.tags)) (unknown_in_subs tags c ss)

  unfoldable pub unknown_in_components : List Tag → List Component → Option UnknownTag
  unknown_in_components tags [] = none
  unknown_in_components tags (c ∷ cs) =
      or_else (unknown_in_subs tags c c.subcomponents) (unknown_in_components tags cs)

  abbrev tag_error : List Tag → UnknownTag → String
  tag_error tags u =
      "tag "
      <> (quote u.tag
          <> (" used on sub-component "
              <> (u.component
                  <> ("/"
                      <> (u.sub_component
                          <> (if is_nil tags
                              then " but no tags are defined in config"
                              else " but not defined in config tags"))))))

  abbrev pub check_tags : DashboardConfig → Option UnknownTag → Result String DashboardConfig
  check_tags cfg none = ok cfg
  check_tags cfg (some u) = err (tag_error cfg.tags u)

  -- The configuration with its slugs.
  abbrev pub slugged_config : DashboardConfig → DashboardConfig
  slugged_config cfg = record cfg { components = map slugged cfg.components }

  abbrev pub check_owners : DashboardConfig → Option Component → Result String DashboardConfig
  check_owners cfg (some c) = err ("component must have at least one owner: " <> c.name)
  check_owners cfg none =
      check_tags (slugged_config cfg)
        (unknown_in_components cfg.tags (slugged_config cfg).components)

  -- The checks of a decoded configuration, with the slugs filled in between.
  unfoldable pub validate_config : DashboardConfig → Result String DashboardConfig
  validate_config cfg = check_owners cfg (without_owner cfg.components)

  abbrev from_result : {S A : Type 0} → Result String A → Exec S String A
  from_result (ok a) = pure a
  from_result (err e) = raise e

  unfoldable pub load_and_validate_config :
      {S : Type 0}
      → Exec S String Bytes
      → (Bytes → Result String DashboardConfig)
      → Exec S String DashboardConfig
  load_and_validate_config read_file decode = do
    bytes ← read_file
    cfg ← from_result (decode bytes)
    from_result (validate_config cfg)

-- The groups that owners name, sorted.
unfoldable pub owner_groups : List Owner → List String → List String
owner_groups [] groups = groups
owner_groups (o ∷ os) groups =
    owner_groups os (if not (o.rover_group == "") then insert_key o.rover_group groups else groups)

unfoldable pub component_groups : List Component → List String → List String
component_groups [] groups = groups
component_groups (c ∷ cs) groups = component_groups cs (owner_groups c.owners groups)

unfoldable pub extract_rover_groups : DashboardConfig → List String
extract_rover_groups cfg = sort_names (component_groups cfg.components [])

-- `GroupMembershipCache`: the members of each group that was loaded, the latest first.
pub record GroupMembers : Type 0 where
  pub group : String
  pub users : List String

abbrev pub GroupCache : Type 0
GroupCache = List GroupMembers

unfoldable pub get_group_members : GroupCache → String → Option (List String)
get_group_members [] group = none
get_group_members (g ∷ gs) group =
    let rest = get_group_members gs group in if g.group == group then some g.users else rest

abbrev pub contains : Option (List String) → String → Bool
contains none user = false
contains (some users) user = has_key user users

unfoldable pub is_user_in_group : GroupCache → String → String → Bool
is_user_in_group cache user group = contains (get_group_members cache group) user

-- The loop of `LoadGroups`: the first error ends it, and what was loaded before stays.
unfoldable pub load_groups :
    {S : Type 0}
    → (String → Exec S String (List String))
    → List String
    → GroupCache
    → S
    → (Result String (Unit {0}) × GroupCache) × S
load_groups get_group [] cache s = ((ok tt, cache), s)
load_groups get_group (name ∷ names) cache s =
    let (r, s') = get_group name s in
    elim r [
      | err e ↦ ((err ("failed to get group " <> (name <> (": " <> e))), cache), s')
      | ok users ↦ load_groups get_group names (record { group = name; users = users } ∷ cache) s'
    ]
