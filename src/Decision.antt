-- ===== src/Decision.antt =====
-- server/oseye/decision: scoring, the journal of decisions, their actions and the human queue.
pub mod Types
pub mod Journal
pub mod Engine
pub mod Repository
pub mod HumanQueue
pub mod Executor
pub mod Worker
