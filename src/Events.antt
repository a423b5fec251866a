-- ===== src/Events.antt =====
-- The event streams: the store that appends to them and the replay of a task's ledger
-- (harness/state/event_store.py, harness/state/events.py).
pub mod Model
pub mod Store
pub mod Append
pub mod Streams
pub mod Retry
pub mod Reduce
pub mod Patch
pub mod Replay
mod Tests
