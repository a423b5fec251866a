-- ===== src/Receipts.antt =====
-- harness/state/receipts.py: receipts of tool calls, for calls that may be made more than once.
pub mod Store
pub mod Once
pub mod Retry
mod Tests
