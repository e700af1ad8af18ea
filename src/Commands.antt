-- ===== src/Commands.antt =====
-- The table of execution commands, backend/execution_command_storage.py.
pub mod Types
pub mod Table
pub mod Storage
pub mod History
mod Tests
