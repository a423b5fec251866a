-- ===== src/Approvals.antt =====
-- harness/approvals: durable human approval of exact commands.
pub mod Contracts
pub mod Store
pub mod Waiting
pub mod Ended
pub mod Invariant
pub mod Expiry
pub mod Decision
pub mod Replies
pub mod Life
mod Tests
