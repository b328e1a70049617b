-- ===== src/Tests/Posts.antt =====
-- A Slack workspace that notes each post, and the report of a new outage in it.
use ship_status_dash.Base.{String, ◌≡◌, refl, ap, ◌↔◌, List, [], ◌∷◌, ◌++◌, map, ok, Any}
use ship_status_dash.Types.Outage.{Reason}
use ship_status_dash.Types.Config.{get_component_by_slug}
use ship_status_dash.Env.{Env}
use ship_status_dash.Env.Lawful.{Tables}
use ship_status_dash.Slack.Channels.{get_slack_reporting_for_sub_component}
use ship_status_dash.Slack.Reporter.{report_outage}
use ship_status_dash.Slack.Laws.{Reaches, AreRecorded, report_outage_iff}
use ship_status_dash.Tests.World.{world, world_slack}
use ship_status_dash.Tests.Fixture.{config, prow, reporter, outage, tables}

-- A post leaves its channel in a row of its own.
abbrev note : String → Reason
note channel = record { outage_id = 0; type = "post"; check = channel; results = "" }

abbrev noting : Env Tables
noting = record (world config) {
  slack_client = record world_slack {
    post_message = λ channel text thread s.
        (ok (channel, "1.0"), record s { reasons = s.reasons ++ (note channel ∷ []) });
  };
}

abbrev noted : List Reason → List String
noted rs = map (λ r. r.check) rs

noted-append :
    (rs : List Reason) (channel : String)
    → noted (rs ++ (note channel ∷ [])) ≡ noted rs ++ (channel ∷ [])
noted-append [] channel = refl
noted-append (r ∷ rs) channel = ap (λ l. r.check ∷ l) (noted-append rs channel)

noting-AreRecorded : AreRecorded noting (λ s. noted s.reasons)
noting-AreRecorded = record {
  post_adds = λ channel message thread s. noted-append s.reasons channel;
  react_keeps = λ name channel timestamp s. refl;
  thread_keeps = λ t s. refl;
}

report_outage_iff_example :
    (told : List String) × (noted (report_outage noting reporter outage tables).1.reasons
      ≡ [] ++ told)
    × ((channel : String)
        → Any (λ c. c ≡ channel) told
          ↔ Any
              (λ c. (c.channel ≡ channel) × Reaches outage.severity c)
              (get_slack_reporting_for_sub_component config "prow" "tide"))
unfolding get_component_by_slug
report_outage_iff_example =
    report_outage_iff noting reporter (λ s. noted s.reasons) noting-AreRecorded outage prow tables
      refl
