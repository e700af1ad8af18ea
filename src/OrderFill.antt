-- ===== src/OrderFill.antt =====
-- Whether an acknowledged entry order reached a final full fill: backend/engines/order_fill.py.
pub mod Types
pub mod Classify
pub mod Poll
pub mod Finalize
mod Tests
