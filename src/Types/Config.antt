-- ===== src/Types/Config.antt =====
-- The dashboard's configuration and its lookups (pkg/types/config.go). A pointer that may be nil is
-- an `Option`. `none` of the lookups is Go's nil.
use ship_status_dash.Base.{
  String, Bool, Option, none, some, List, [], ◌∷◌, ◌==◌, string_eq, if◌then◌else◌,
}
use ship_status_dash.Types.Severity.{Severity}

pub record SlackReportingConfig : Type 0 where
  pub channel : String
  pub severity : Option Severity

pub record Monitoring : Type 0 where
  pub frequency : String
  pub component_monitor : String
  pub auto_resolve : Bool

pub record SubComponent : Type 0 where
  pub name : String
  pub slug : String
  pub tags : List String
  pub monitoring : Option Monitoring
  pub requires_confirmation : Bool
  pub slack_reporting : List SlackReportingConfig

pub record Owner : Type 0 where
  pub rover_group : String
  pub service_account : String
  pub user : String

pub record Component : Type 0 where
  pub name : String
  pub slug : String
  pub ship_team : String
  pub slack_reporting : List SlackReportingConfig
  pub subcomponents : List SubComponent
  pub owners : List Owner

pub record Tag : Type 0 where
  pub name : String
  pub description : String
  pub color : String

pub record DashboardConfig : Type 0 where
  pub components : List Component
  pub tags : List Tag

find_component : List Component → String → Option Component
find_component [] slug = none
find_component (c ∷ cs) slug = if c.slug == slug then some c else find_component cs slug

unfoldable pub get_component_by_slug : DashboardConfig → String → Option Component
unfolding find_component
get_component_by_slug c slug = find_component c.components slug

find_sub_component : List SubComponent → String → Option SubComponent
find_sub_component [] slug = none
find_sub_component (s ∷ ss) slug = if s.slug == slug then some s else find_sub_component ss slug

unfoldable pub get_sub_component_by_slug : Component → String → Option SubComponent
unfolding find_sub_component
get_sub_component_by_slug c slug = find_sub_component c.subcomponents slug

own_reporting : Option SubComponent → List SlackReportingConfig
own_reporting none = []
own_reporting (some s) = s.slack_reporting

component_reporting : Option Component → List SlackReportingConfig
component_reporting none = []
component_reporting (some c) = c.slack_reporting

-- The arguments are pointers, which may be nil; a nil result is the empty list.
unfoldable pub get_slack_reporting :
    Option Component → Option SubComponent → List SlackReportingConfig
unfolding own_reporting component_reporting
get_slack_reporting component sub_component = elim (own_reporting sub_component) [
  | [] ↦ component_reporting component
  | c ∷ cs ↦ c ∷ cs
]
