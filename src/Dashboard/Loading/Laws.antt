-- ===== src/Dashboard/Loading/Laws.antt =====
-- What a configuration that was loaded has.
use ship_status_dash.Base.{String, Char, ◌≡◌, ◌≢◌, List, [], All, Any, string_eq}
use ship_status_dash.Types.Config.{SubComponent, Component, Tag, DashboardConfig}
use ship_status_dash.Utils.Slugify.{slugify}
use ship_status_dash.Dashboard.Loading.{slugged_config}

abbrev pub HasOwner : Component → Type 0
HasOwner c = c.owners ≢ []

module _ (lower : Char → Char) (quote : String → String) where
  -- A tag of the configuration has the slug of the name.
  abbrev pub IsDefined : List Tag → String → Type 0
  IsDefined tags name = Any (λ (t : Tag). slugify lower t.name ≡ slugify lower name) tags

  abbrev pub IsTagged : List Tag → SubComponent → Type 0
  IsTagged tags s = All (IsDefined tags) s.tags

  -- What a valid configuration has: owners for every component, and only tags that are defined.
  abbrev pub IsValid : DashboardConfig → Type 0
  IsValid cfg =
      All HasOwner cfg.components
      × All (λ (c : Component). All (IsTagged cfg.tags) c.subcomponents)
          (slugged_config lower quote cfg).components
