-- ===== src/Examples.antt =====
-- Concrete inputs on which the theorems apply: signals, rules and an API server.
mod Data
mod Server
mod Rules
mod Reports
mod Lifecycle
mod Streams
mod Registry
mod Pipeline
mod Detection
mod Telemetry
mod Runs
mod Duplicates
mod Agents
