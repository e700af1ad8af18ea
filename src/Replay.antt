-- ===== src/Replay.antt =====
-- The candles of the historical replay: how backend/replay_collector.py fetches them page by page
-- from the public market data of the exchange, and how backend/replay_storage.py keeps them.
pub mod Types
pub mod Request
pub mod Candle
pub mod Rows
pub mod Client
pub mod Page
pub mod Pages
pub mod Exchange
pub mod Storage
pub mod Cache
pub mod Sync
mod Tests
