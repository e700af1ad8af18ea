-- ===== src/InstanceGuard.antt =====
-- The guard of the leading instance, backend/runtime_instance_guard.py.
pub mod Database
pub mod OneLock
pub mod Instance
pub mod Guard
pub mod History
mod Tests
