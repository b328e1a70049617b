-- ===== src/Slack.antt =====
-- `SlackReporter` (pkg/outage/slack_report.go): which channels hear of an outage, and the posts.
pub mod Channels
pub mod Messages
pub mod Reporter
pub mod Laws
