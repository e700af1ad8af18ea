-- ===== src/Handoff.antt =====
-- The crash-safe handoff of backend/execution_handoff.py.
pub mod Types
pub mod Monad
pub mod Fill
pub mod PricePlan
pub mod Queue
pub mod Claims
pub mod Records
pub mod Recovery
pub mod Prepare
pub mod Submit
pub mod Rules
pub mod Core
pub mod Safe
pub mod History
pub mod Gate
mod Tests
pub mod Run
