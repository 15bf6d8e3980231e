-- ===== src/Controller.antt =====
-- The controller of IncidentReport resources: internal/controller/incidentreport_controller.go.
pub mod Cluster
pub mod State
pub mod Transitions
pub mod Reconcile
pub mod Lifecycle
pub mod Steps
pub mod Announcing
pub mod Resolved
pub mod Phases
pub mod Paths
pub mod Silence
pub mod Open
pub mod Closing
