-- ===== src/Outbox.antt =====
-- The outbox of approved candidates, backend/execution_command_outbox.py.
pub mod Types
pub mod Payload
pub mod Deliver
pub mod Validation
pub mod Mirror
pub mod State
pub mod Build
pub mod History
mod Tests
