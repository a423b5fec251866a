-- ===== src/Safety.antt =====
-- The risk of a shell command and the policy on it (harness/safety/approval.py).
pub mod Pattern
pub mod Shell
pub mod Risk
pub mod Classify
pub mod Policy
pub mod Highest
mod Tests
