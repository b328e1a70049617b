-- ===== src/Slack/Reporter.antt =====
-- The reporter itself (pkg/outage/slack_report.go): posts for a new outage, and replies for an
-- update. A failed post or a thread that cannot be stored does not stop the other channels.
use Prim.Native.Char.{Char}
use ship_status_dash.Base.{
  String, ◌<>◌, Bool, true, false, not, ◌&&◌, Option, none, some, List, [], ◌∷◌, Exec, Result, ok,
  err, pure, raise, attempt, ◌>>=◌, ◌>>◌, ◌==◌, string_eq, if◌then◌else◌, code, nat_eq,
}
use ship_status_dash.Types.Outage.{Outage, SlackThread}
use ship_status_dash.Types.Config.{Component, DashboardConfig, get_component_by_slug}
use ship_status_dash.Env.{Error, failed, Env}
use ship_status_dash.Repositories.SlackThreads.{create_thread, get_threads_for_outage}
use ship_status_dash.Slack.Channels.{
  get_slack_reporting_for_sub_component, filter_channels_by_severity,
}
use ship_status_dash.Slack.Messages.{build_thread_url, format_outage_message, format_update_message}

pub record SlackReporter : Type 0 where
  pub lower : Char → Char
  pub base_url : String
  pub workspace_url : String

abbrev ends_in_slash : String → Bool
ends_in_slash String.[] = false
ends_in_slash (String.◌∷◌ c String.[]) = code c == 47
ends_in_slash (String.◌∷◌ c (String.◌∷◌ d s)) = ends_in_slash (String.◌∷◌ d s)

unfoldable pub normalize_url : String → String
normalize_url url = if not (url == "") && not (ends_in_slash url) then url <> "/" else url

unfoldable pub new_slack_reporter : (Char → Char) → String → String → SlackReporter
new_slack_reporter lower base_url workspace_url = record {
  lower = lower;
  base_url = normalize_url base_url;
  workspace_url = normalize_url workspace_url;
}

abbrev pub keep_last : {A : Type 0} → Option Error → Result Error A → Option Error
keep_last last (ok _) = last
keep_last last (err e) = some e

module _ {S : Type 0} (env : Env S) (reporter : SlackReporter) where
  unfoldable pub add_resolved_emoji : String → String → Exec S Error (Unit {0})
  add_resolved_emoji channel_id timestamp =
      env.slack_client.add_reaction "outage_resolved" channel_id timestamp

  -- A failed reaction is only logged.
  abbrev mark_resolved : Bool → String → String → Exec S Error (Unit {0})
  mark_resolved false channel_id timestamp = pure tt
  mark_resolved true channel_id timestamp = do
    attempt (add_resolved_emoji channel_id timestamp)
    pure tt

  -- One round of the loop over the channels.
  unfoldable pub post_to_channel : Outage → String → String → Exec S Error (Unit {0})
  unfolding add_resolved_emoji
  post_to_channel o message channel = do
    (channel_id, timestamp) ← env.slack_client.post_message channel message none
    create_thread env (record {
      outage_id = o.id;
      channel = channel;
      channel_id = channel_id;
      thread_timestamp = timestamp;
      thread_url = build_thread_url reporter.workspace_url channel timestamp;
    })
    mark_resolved o.end_time.valid channel_id timestamp

  abbrev finish : Option Error → Exec S Error (Unit {0})
  finish none = pure tt
  finish (some e) = raise e

  unfoldable pub post_each : Outage → String → Option Error → List String → Exec S Error (Unit {0})
  post_each o message last [] = finish last
  post_each o message last (channel ∷ channels) = do
    r ← attempt (post_to_channel o message channel)
    post_each o message (keep_last last r) channels

  abbrev post_if_found : Option Component → Outage → List String → String → Exec S Error (Unit {0})
  post_if_found none o channels message =
      raise (failed ("component not found: " <> o.component_name))
  post_if_found (some component) o channels message = post_each o message none channels

  unfoldable pub post_to_slack_channels : Outage → List String → String → Exec S Error (Unit {0})
  post_to_slack_channels o channels message s =
      post_if_found (get_component_by_slug (env.config s) o.component_name) o channels message s

  unfoldable pub reply_to_thread : Outage → String → SlackThread → Exec S Error (Unit {0})
  unfolding add_resolved_emoji
  reply_to_thread o message thread = do
    env.slack_client.post_message thread.channel message (some thread.thread_timestamp)
    mark_resolved o.end_time.valid thread.channel_id thread.thread_timestamp

  unfoldable pub reply_each :
      Outage → String → Option Error → List SlackThread → Exec S Error (Unit {0})
  reply_each o message last [] = finish last
  reply_each o message last (thread ∷ threads) = do
    r ← attempt (reply_to_thread o message thread)
    reply_each o message (keep_last last r) threads

  unfoldable pub reply_to_slack_threads :
      Outage → List SlackThread → String → Exec S Error (Unit {0})
  reply_to_slack_threads o threads message = reply_each o message none threads

  abbrev report_found : Option Component → Outage → List String → Exec S Error (Unit {0})
  report_found none o channels = raise (failed ("component not found: " <> o.component_name))
  report_found (some component) o channels =
      post_to_slack_channels o channels
        (format_outage_message reporter.lower env.format_time reporter.base_url o component)

  abbrev pub report_to : DashboardConfig → Outage → List String → Exec S Error (Unit {0})
  report_to cfg o [] = pure tt
  report_to cfg o (channel ∷ channels) =
      report_found (get_component_by_slug cfg o.component_name) o (channel ∷ channels)

  unfoldable pub report_outage : Outage → Exec S Error (Unit {0})
  report_outage o s =
      report_to (env.config s) o
        (filter_channels_by_severity
          (get_slack_reporting_for_sub_component (env.config s) o.component_name
            o.sub_component_name)
          o.severity)
        s

  abbrev reply_or_report :
      DashboardConfig → List SlackThread → Outage → Outage → Exec S Error (Unit {0})
  reply_or_report cfg [] o old = report_outage o
  reply_or_report cfg (t ∷ ts) o old =
      reply_to_slack_threads o (t ∷ ts)
        (format_update_message reporter.lower env.format_time reporter.base_url cfg o old)

  unfoldable pub report_outage_update : Outage → Outage → Exec S Error (Unit {0})
  report_outage_update o old = do
    threads ← get_threads_for_outage env o.id
    λ s. reply_or_report (env.config s) threads o old s
