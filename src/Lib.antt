-- ===== src/Lib.antt =====
-- Verification of the Ship Status Dashboard: a server that keeps the outages of a platform's
-- components, and shows their status.
--
-- The parts. Users create, change and delete outages over HTTP; component monitors report the status
-- of sub-components over HTTP; a periodic check opens outages where a monitor has stopped to report.
-- All three go through the interface `OutageManager`. Its implementation over the database validates
-- an outage, writes it in a transaction with its reasons, and tells Slack. Hooks of the database layer
-- add an entry to the audit log in the same transaction as each write. The status of a component is
-- computed from its active outages whenever somebody asks.
--
-- The files, with the code that they model:
--   Types           pkg/types: severities and statuses (`Types.Severity`), outages and their
--                   validation (`Types.Outage`), the configuration and its lookups
--                   (`Types.Config`), the monitor's configuration (`Types.Monitoring`)
--   Utils           pkg/utils: `Slugify`
--   Env             what the code calls and does not contain: gorm, the Slack client, the clock, the
--                   JSON encoder; `Env.Lawful` states the behaviour that the code relies on
--   Repositories    pkg/repositories, and the hooks of pkg/types/models.go (`Repositories.Hooks`)
--   Slack           pkg/outage/slack_report.go: channels, messages, and the posts
--   Manager         pkg/outage/outage_manager.go: the interface with its contract
--                   (`IsOutageManager`), `Manager.Db` its implementation
--   Config          pkg/config/manager.go: the configuration manager and its reload
--   Dashboard       cmd/dashboard: monitor reports (component_monitoring_report.go, `Report`), the
--                   check for absent reports (absent_report.go, `Absent`), the HTTP handlers
--                   (handlers.go, `Handlers`), the cache of pages from other servers and the script
--                   inserted in them (external_page_handler.go, `Pages`), authentication (auth.go,
--                   `Auth`), the routes (server.go, `Server`), the load of the configuration and the
--                   groups of users (main.go and pkg/auth/groups.go, `Loading`), and what they are
--                   given (`Services`)
--   Monitor         cmd/component-monitor: the merge of the probes' results into a report
--                   (probe-orchestrator.go, `Merge`), the loop that collects the results
--                   (`Orchestrator`), the client that sends the report (report-client.go,
--                   `Client`), the probes (`Http`, `Junit`, `Prometheus`, `Systemd`), the
--                   severities they use (`Severities`), and the load of the configuration and the
--                   probes made of it (main.go, `Config`)
--   Base            shared helpers: tests, lists, texts, and computations with state and errors
--   Tests           a world in memory that is lawful, and concrete runs in it
-- Functions keep their names, in snake case. Stateful code is a function from the state of the world
-- to a result or an error and the next state; a handler ends with a response, an error response or a
-- panic. The world is a parameter. Theorems see the outages, their reasons and the audit log in
-- it through a function `view`.
--
-- Bounds and fuel. No definition needs fuel: all loops run over lists, but for the listing of builds,
-- whose at most 50 pages are the code's own bound. A time is a number of nanoseconds since Go's zero
-- time, a duration a number of nanoseconds; the code's sums stay far from the limits of 64 bits for any
-- frequency below a century. An outage's id in a path is checked against 32 bits, as in the code.
-- Negative durations and negative status codes of a configuration are outside the model; a timestamp of a
-- build that is missing or negative is 0.
--
-- Not modelled: logging, the router's matching, CORS, the serving of static files and the check of a
-- request's signature (parameters), the encoding of responses, the conversion of times to UTC, the
-- component monitor's print of a report, the creation of Prometheus clients, the timers of the
-- absent-report check, the flags and the start-up of the servers, the migration, and the frontend.
pub mod Base
pub mod Utils
pub mod Types
pub mod Env
pub mod Repositories
pub mod Slack
pub mod Manager
pub mod Config
pub mod Dashboard
pub mod Monitor
pub mod Tests
