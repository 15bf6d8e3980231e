-- ===== src/RuleEngine.antt =====
-- The rulengine package: correlation rules from RCACorrelationRule resources.
pub mod Rule
pub mod Attributes
pub mod Scope
pub mod Engine
