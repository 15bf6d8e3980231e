-- ===== src/Reporter.antt =====
-- The reporter package: the single writer of IncidentReport resources.
pub mod Text
pub mod TraceIds
pub mod Fingerprint
pub mod Api
pub mod Write
pub mod State
pub mod Find
pub mod Ensure
pub mod Resolve
pub mod Consolidate
pub mod Unique
pub mod Bounds
pub mod Evolution
pub mod Opens
pub mod Distinct
pub mod Healthy
