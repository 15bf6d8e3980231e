-- ===== src/Autodetect.antt =====
-- internal/autodetect: rules from patterns that come back.
pub mod Pattern
pub mod Accumulator
pub mod Api
pub mod Rule
pub mod Creator
pub mod Detector
