-- ===== src/Orchestrator.antt =====
-- The scheduler of the staged scanner, backend/runtime_orchestrator.py.
pub mod Types
pub mod Failure
pub mod Run
pub mod Thread
pub mod History
mod Tests
