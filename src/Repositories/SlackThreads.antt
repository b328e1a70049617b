-- ===== src/Repositories/SlackThreads.antt =====
-- `gormSlackThreadRepository` (pkg/repositories/slack_thread_repository.go).
use ship_status_dash.Base.{ℕ, String, ◌&&◌, none, List, [], Exec, ◌==◌, nat_eq, string_eq}
use ship_status_dash.Types.Outage.{SlackThread}
use ship_status_dash.Env.{Error, Env}

module _ {S : Type 0} (env : Env S) where
  unfoldable pub create_thread : SlackThread → Exec S Error SlackThread
  create_thread t = env.db.slack_threads.create t

  unfoldable pub get_threads_for_outage : ℕ → Exec S Error (List SlackThread)
  get_threads_for_outage id =
      env.db.slack_threads.find
        (record { filter = λ t. t.outage_id == id; order = none; preload = [] })

  unfoldable pub get_thread_for_outage_and_channel : ℕ → String → Exec S Error SlackThread
  get_thread_for_outage_and_channel id channel = env.db.slack_threads.first (record {
    filter = λ t. t.outage_id == id && t.channel == channel;
    order = none;
    preload = [];
  })

  unfoldable pub update_thread : SlackThread → Exec S Error SlackThread
  update_thread t = env.db.slack_threads.save t
