-- ===== src/Incident.antt =====
-- Incidents: the resource IncidentReport, the canonical input of a signal, fingerprints, and the
-- status transitions that the reporter and the controller share.
pub mod Report
pub mod Resources
pub mod Resolver
pub mod Input
pub mod Status
