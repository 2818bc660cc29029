-- ===== src/Events.antt =====
-- backend/app/core/chat_run_events.py: the live events of a run in Redis.
pub mod Store
pub mod Scripts
pub mod Transport
pub mod Memory
pub mod Consistency
pub mod Appending
pub mod Delivery
pub mod Ending
pub mod Snapshots
pub mod Replay
