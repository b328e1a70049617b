-- ===== src/Slack/Laws.antt =====
-- Who hears of an outage, and that the posts leave the tables as they are.
use ship_status_dash.Base.{
  ◌≤◌, String, ◌≡◌, refl, ◌⊎◌, inl, inr, true, Option, none, some, List, [], ◌∷◌, arith, Any, ◌↔◌,
  ◌∙◌, sym, ap, ◌++◌,
}
use ship_status_dash.Types.Severity.{Severity, get_severity_level, is_valid_severity}
use ship_status_dash.Types.Config.{SlackReportingConfig, Component, get_component_by_slug}
use mathlib.Core.List.{append-nil, append_assoc}
use ship_status_dash.Types.Outage.{Outage, SlackThread}
use ship_status_dash.Repositories.SlackThreads.{create_thread, get_threads_for_outage}
use ship_status_dash.Env.{Error, Env}
use ship_status_dash.Env.Lawful.{Tables, Keeps, IsLawful}
use ship_status_dash.Slack.Channels.{
  get_slack_reporting_for_sub_component, get_effective_severity, filter_channels_by_severity,
}
use ship_status_dash.Slack.Reporter.{
  SlackReporter, keep_last, report_to, post_to_channel, post_each, report_outage,
  report_outage_update, reply_to_thread, reply_each, post_to_slack_channels, reply_to_slack_threads,
}

-- The entries of a configuration whose threshold a severity reaches.
abbrev pub Reaches : Severity → SlackReportingConfig → Type 0
Reaches severity config =
    get_severity_level (get_effective_severity config) ≤ get_severity_level severity

-- A channel is in the list exactly when an entry for it has a threshold that the severity reaches.
told_of_entry :
    (channel : String) (severity : Severity) (reporting : List SlackReportingConfig)
    → Any (λ c. (c.channel ≡ channel) × Reaches severity c) reporting
    → Any (λ c. c ≡ channel) (filter_channels_by_severity reporting severity)
unfolding filter_channels_by_severity
told_of_entry channel severity [] h = h
told_of_entry channel severity (c ∷ cs) h = ground (arith, told_of_entry channel severity cs)

entry_of_told :
    (channel : String) (severity : Severity) (reporting : List SlackReportingConfig)
    → Any (λ c. c ≡ channel) (filter_channels_by_severity reporting severity)
    → Any (λ c. (c.channel ≡ channel) × Reaches severity c) reporting
unfolding filter_channels_by_severity
entry_of_told channel severity [] h = h
entry_of_told channel severity (c ∷ cs) h = ground (arith, entry_of_told channel severity cs)

-- The list of channels for a severity has a channel exactly when some entry of the configuration names
-- it with a threshold at or below the severity.
pub filter_channels_iff :
    (channel : String) (severity : Severity) (reporting : List SlackReportingConfig)
    → Any (λ c. c ≡ channel) (filter_channels_by_severity reporting severity)
      ↔ Any (λ c. (c.channel ≡ channel) × Reaches severity c) reporting
filter_channels_iff channel severity reporting =
    (entry_of_told channel severity reporting, told_of_entry channel severity reporting)

-- An entry with no threshold, or an empty one, is reached by every valid severity.
pub Reaches-by_default :
    (severity : Severity) (config : SlackReportingConfig)
    → (config.severity ≡ none) ⊎ (config.severity ≡ some "")
    → is_valid_severity severity ≡ true
    → Reaches severity config
unfolding get_effective_severity get_severity_level is_valid_severity
Reaches-by_default severity config (inl e) h = rw e (ground arith)
Reaches-by_default severity config (inr e) h = rw e (ground arith)

module _ {S : Type 0} (env : Env S) (reporter : SlackReporter) where
  module _ (view : S → Tables) (law : IsLawful env view) where
    post_to_channel-Keeps :
        (o : Outage) (message channel : String)
        → Keeps view (post_to_channel env reporter o message channel)
    unfolding post_to_channel create_thread
    post_to_channel-Keeps o message channel s =
        grind (arith, law.post_keeps, law.thread_keeps, law.react_keeps)

    reply_to_thread-Keeps :
        (o : Outage) (message : String) (t : SlackThread)
        → Keeps view (reply_to_thread env reporter o message t)
    unfolding reply_to_thread
    reply_to_thread-Keeps o message t s = grind (arith, law.post_keeps, law.react_keeps)

    post_each-Keeps :
        (o : Outage) (message : String) (last : Option Error) (channels : List String)
        → Keeps view (post_each env reporter o message last channels)
    unfolding post_each
    post_each-Keeps o message none [] s = refl
    post_each-Keeps o message (some e) [] s = refl
    post_each-Keeps o message last (c ∷ cs) s =
        let (r, t) = post_to_channel env reporter o message c s in
        post_each-Keeps o message (keep_last last r) cs t ∙ post_to_channel-Keeps o message c s

    reply_each-Keeps :
        (o : Outage) (message : String) (last : Option Error) (threads : List SlackThread)
        → Keeps view (reply_each env reporter o message last threads)
    unfolding reply_each
    reply_each-Keeps o message none [] s = refl
    reply_each-Keeps o message (some e) [] s = refl
    reply_each-Keeps o message last (c ∷ cs) s =
        let (r, t) = reply_to_thread env reporter o message c s in
        reply_each-Keeps o message (keep_last last r) cs t ∙ reply_to_thread-Keeps o message c s

    -- Reporting an outage changes neither the outages nor the audit log.
    pub report_outage-Keeps : (o : Outage) → Keeps view (report_outage env reporter o)
    unfolding report_outage post_to_slack_channels
    report_outage-Keeps o s = grind (arith, post_each-Keeps)

    pub report_outage_update-Keeps :
        (o old : Outage) → Keeps view (report_outage_update env reporter o old)
    unfolding report_outage_update get_threads_for_outage reply_to_slack_threads
    report_outage_update-Keeps o old s =
        grind (arith, law.threads_keeps, reply_each-Keeps, report_outage-Keeps)

-- The channels in which something was posted, or tried to be, in their order; only a post adds to them.
pub record AreRecorded {S : Type 0} (env : Env S) (posts : S → List String) : Type 0 where
  pub post_adds :
      (channel message : String) (thread : Option String) (s : S)
      → posts (env.slack_client.post_message channel message thread s).1 ≡ posts s ++ (channel ∷ [])
  pub react_keeps :
      (name channel timestamp : String) (s : S)
      → posts (env.slack_client.add_reaction name channel timestamp s).1 ≡ posts s
  pub thread_keeps : (t : SlackThread) (s : S) → posts (env.db.slack_threads.create t s).1 ≡ posts s

module _ {S : Type 0} (env : Env S) (reporter : SlackReporter) (posts : S → List String)
    (law : AreRecorded env posts) where
  post_to_channel-adds :
      (o : Outage) (message channel : String) (s : S)
      → posts (post_to_channel env reporter o message channel s).1 ≡ posts s ++ (channel ∷ [])
  unfolding post_to_channel create_thread
  post_to_channel-adds o message channel s =
      grind (arith, law.post_adds, law.react_keeps, law.thread_keeps)

  post_each-adds :
      (o : Outage) (message : String) (last : Option Error) (channels : List String) (s : S)
      → posts (post_each env reporter o message last channels s).1 ≡ posts s ++ channels
  unfolding post_each
  post_each-adds o message none [] s = sym (append-nil (posts s))
  post_each-adds o message (some e) [] s = sym (append-nil (posts s))
  post_each-adds o message last (c ∷ cs) s =
      let t = (post_to_channel env reporter o message c s).1 in
      post_each-adds o message (keep_last last (post_to_channel env reporter o message c s).0) cs t
      ∙ ap (λ l. l ++ cs) (post_to_channel-adds o message c s)
      ∙ append_assoc (posts s) (c ∷ []) cs

  report_to-adds :
      (o : Outage) (component : Component) (channels : List String) (s : S)
      → get_component_by_slug (env.config s) o.component_name ≡ some component
      → posts (report_to env reporter (env.config s) o channels s).1 ≡ posts s ++ channels
  unfolding post_to_slack_channels
  report_to-adds o component [] s e = sym (append-nil (posts s))
  report_to-adds o component (c ∷ cs) s e = rw (e, e) (post_each-adds o _ none (c ∷ cs) s)

  -- Whichever posts fail, the report of a new outage of a configured component posts in some channels
  -- once more each, and a channel is among them exactly when some entry of the configuration of the
  -- outage's sub-component names it with a threshold at or below the outage's severity.
  pub report_outage_iff :
      (o : Outage) (component : Component) (s : S)
      → get_component_by_slug (env.config s) o.component_name ≡ some component
      → (told : List String) × (posts (report_outage env reporter o s).1 ≡ posts s ++ told)
        × ((channel : String)
            → Any (λ c. c ≡ channel) told
              ↔ Any
                  (λ c. (c.channel ≡ channel) × Reaches o.severity c)
                  (get_slack_reporting_for_sub_component
                    (env.config s)
                    o.component_name
                    o.sub_component_name))
  unfolding report_outage
  report_outage_iff o component s e =
      (_, report_to-adds o component _ s e, λ channel. filter_channels_iff channel o.severity _)
