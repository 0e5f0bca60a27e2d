-- ===== src/Workflow.antt =====
-- internal/workflow.
pub mod Worker
mod Tests
