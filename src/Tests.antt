-- ===== src/Tests.antt =====
-- A world in memory and concrete runs in it: each theorem on the program at inputs where its
-- hypotheses hold.
mod World
mod Lawful
mod Fixture
mod Examples
mod Server
mod Junit
mod Config
mod Monitor
mod Loading
mod Orchestrator
mod Client
mod Reports
mod Posts
