-- ===== src/Correlator.antt =====
-- The correlator package: the sliding-window buffer of recent signals and the rule engine.
pub mod Classify
pub mod Buffer
pub mod Order
pub mod Engine
