-- ===== src/Sandbox.antt =====
-- internal/sandbox: the manager of workers.
pub mod Reap
pub mod Runtime
