-- ===== src/Watcher.antt =====
-- The watcher package: the signals that reach the correlator, and the emitter that sends them.
pub mod Event
pub mod Emitter
