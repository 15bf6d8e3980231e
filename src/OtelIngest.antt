-- ===== src/OtelIngest.antt =====
-- internal/otelingest: OTLP payloads become signals.
pub mod Values
pub mod Translator
pub mod Server
pub mod Settings
