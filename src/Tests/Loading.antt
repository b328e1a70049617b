-- ===== src/Tests/Loading.antt =====
-- A configuration of the dashboard that is accepted.
use ship_status_dash.Base.{String, Char, [], ◌∷◌}
use ship_status_dash.Types.Config.{DashboardConfig}
use ship_status_dash.Tests.Fixture.{prow}

abbrev keep : Char → Char
keep c = c

abbrev quote : String → String
quote text = text

abbrev tagged : DashboardConfig
tagged = record {
  components = prow ∷ [];
  tags = record { name = "Merging"; description = ""; color = "" } ∷ [];
}
