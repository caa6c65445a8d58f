-- ===== src/Engine.antt =====
-- internal/engine: the execution node.
pub mod Networks
pub mod Jobs
