-- ===== src/RuleEngine.antt =====
-- server/oseye/rule_engine: the sliding windows of temporal rules, and the rules by category.
pub mod Temporal
pub mod Index
pub mod Parser
