-- ===== src/Signals.antt =====
-- The signal pipeline of internal/signals: the normalizer, the enricher and the deduplicator.
pub mod Mapping
pub mod Summary
pub mod Guess
pub mod Normalizer
pub mod Enricher
pub mod Deduplicator
